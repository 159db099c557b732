-- ===== src/Result.antt =====
-- What a call of Python code may raise, and the calls that may raise.
use levin.Prelude.{ℕ}

-- `raised n` stands for an exception of a handler or of a library, named by a number.
pub data Error : Type 0 where
  parse_error value_error type_error key_error attribute_error disable_component close_exception
        cancelled_error wrong_template unicode_error :
      Error
  raised : ℕ → Error

-- A call either raises or returns.
pub data Result {ℓ} (A : Type ℓ) : Type ℓ where
  err : (exception : Error) → Result A
  ok : (returned : A) → Result A

infixl 10 ◌>>=◌
abbrev pub ◌>>=◌ {ℓ κ} : {A : Type ℓ} {B : Type κ} (call : Result A) → (A → Result B) → Result B
err exception >>= next = err exception
ok returned >>= next = next returned
