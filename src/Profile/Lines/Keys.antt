-- ===== src/Profile/Lines/Keys.antt =====
-- levin/utils/profile.py: the keys that the loops of `get_lines` add to the dict of lines.
use levin.Prelude.{
  ℕ, ◌+◌, ◌≡◌, refl, sym, ap, ◌∙◌, Bool, true, false, ◌&&◌, ◌||◌, Option, none, some, List, [], ◌∷◌,
  ◌++◌, ◌==◌, ==_iff, if◌then◌else◌, Bool-cases, and-true, inl, inr,
}
use levin.Bytes.{Str}
use levin.Result.{Result, ok, err, ◌>>=◌}
use levin.Profile.{Code, CallResult, get_function}
use levin.Profile.Lines.{Key, key_of, same_key, Lines, put_line, find_line, line_or_new, is_blank}

-- The call returns, and what it returns has the property.
abbrev pub Returns {ℓ} : {A : Type ℓ} → (A → Type 0) → Result A → Type 0
Returns P (err e) = ⊥
Returns P (ok a) = P a

pub Returns-bind {ℓ κ} :
    {A : Type ℓ} {B : Type κ} (P : A → Type 0) (Q : B → Type 0) (m : Result A) (f : A → Result B)
    → ((a : A) → P a → Returns Q (f a))
    → Returns P m
    → Returns Q (m >>= f)
Returns-bind P Q (err e) f h p = p
Returns-bind P Q (ok a) f h p = h a p

-- key in keys
abbrev pub member : Key → List Key → Bool
member k [] = false
member k (j ∷ keys) = same_key j k || member k keys

-- The keys of the lines of a text that are not blank, from a line number on.
abbrev pub text_keys : ℕ → ℕ → ℕ → ℕ → List Str → List Key
text_keys depth filename func_lineno lineno [] = []
text_keys depth filename func_lineno lineno (text ∷ texts) =
    let rest = text_keys depth filename func_lineno (lineno + 1) texts in
    if is_blank text then rest else (lineno + func_lineno, filename, depth) ∷ rest

abbrev pub source_keys : ℕ → ℕ → ℕ → Option (List Str) → List Key
source_keys depth filename func_lineno (some (head ∷ texts)) =
    text_keys depth filename func_lineno 1 texts
source_keys depth filename func_lineno _ = []

-- The keys of the lines of the functions, but the first line of each and the blank ones; the depth counts
-- the functions.
abbrev pub function_keys : ℕ → List ((ℕ × ℕ) × List Str) → List Code → List Key
function_keys depth sources [] = []
function_keys depth sources (code ∷ codes) =
    source_keys depth code.filename code.firstlineno
      (get_function code.filename code.firstlineno sources)
    ++ function_keys (depth + 1) sources codes

abbrev pub IsSaved : Option (List Str) → Type 0
IsSaved none = ⊥
IsSaved (some lines) = Unit

-- The source of each function was saved.
abbrev pub AreSaved : List ((ℕ × ℕ) × List Str) → List Code → Type 0
AreSaved sources [] = Unit
AreSaved sources (code ∷ codes) =
    IsSaved (get_function code.filename code.firstlineno sources) × AreSaved sources codes

abbrev pub has_line : Key → Lines → Bool
has_line k [] = false
has_line k ((j, c) ∷ lines) = same_key j k || has_line k lines

abbrev pub IsKeyed : Lines → Type 0
IsKeyed [] = Unit
IsKeyed ((k, c) ∷ lines) = (k ≡ key_of c) × IsKeyed lines

same_key_eq : (j k : Key) → same_key j k ≡ true → j ≡ k
unfolding same_key
same_key_eq (l, f, d) (l', f', d') h =
    let (a, rest) = and-true (l == l') ((f == f') && (d == d')) h in
    let (b, c) = and-true (f == f') (d == d') rest in
    rw ((==_iff l l').0 a, (==_iff f f').0 b, (==_iff d d').0 c) refl

pub or_swap : (a b c : Bool) → (a || (b || c)) ≡ (b || (a || c))
or_swap true true c = refl
or_swap true false c = refl
or_swap false b c = refl

or_again : (a c : Bool) → (a || c) ≡ (a || (a || c))
or_again true c = refl
or_again false c = refl

pub or_assoc : (a b c : Bool) → ((a || b) || c) ≡ (a || (b || c))
or_assoc true b c = refl
or_assoc false b c = refl

pub or_comm : (a b : Bool) → (a || b) ≡ (b || a)
or_comm true true = refl
or_comm true false = refl
or_comm false true = refl
or_comm false false = refl

pub has_line-put_line :
    (k k' : Key) (c : CallResult) (lines : Lines)
    → has_line k (put_line k' c lines) ≡ (same_key k' k || has_line k lines)
unfolding put_line
has_line-put_line k k' c [] = refl
has_line-put_line k k' c ((j, old) ∷ lines) = elim (Bool-cases (same_key j k')) [
  | inl e ↦ rw e (
      ap (λ (x : Key). same_key x k || has_line k lines) (same_key_eq j k' e)
      ∙ or_again (same_key k' k) (has_line k lines)
      ∙ ap (λ (x : Key). same_key k' k || (same_key x k || has_line k lines))
          (sym (same_key_eq j k' e)))
  | inr e ↦ rw e (
      ap (λ (b : Bool). same_key j k || b) (has_line-put_line k k' c lines)
      ∙ or_swap (same_key j k) (same_key k' k) (has_line k lines))
]

pub put_line-IsKeyed :
    (c : CallResult) (lines : Lines) → IsKeyed lines → IsKeyed (put_line (key_of c) c lines)
unfolding put_line
put_line-IsKeyed c [] h = (refl, tt)
put_line-IsKeyed c ((j, old) ∷ lines) h = elim (Bool-cases (same_key j (key_of c))) [
  | inl e ↦ rw e (same_key_eq j (key_of c) e, h.1)
  | inr e ↦ rw e (h.0, put_line-IsKeyed c lines h.1)
]

abbrev pub with_depth : ℕ → Key → Key
with_depth depth (l, f, d) = (l, f, depth)

-- What is found under a key has it.
pub line_or_new-key :
    (lines : Lines) (lineno func_lineno filename depth : ℕ)
    → IsKeyed lines
    → key_of
        (record (line_or_new
          (find_line (lineno + func_lineno, filename, depth) lines)
          lineno
          func_lineno
          filename) { depth = depth })
      ≡ (lineno + func_lineno, filename, depth)
unfolding find_line
line_or_new-key [] lineno func_lineno filename depth h = refl
line_or_new-key ((j, c) ∷ lines) lineno func_lineno filename depth h =
    elim (Bool-cases (same_key j (lineno + func_lineno, filename, depth))) [
      | inl e ↦ rw e (ap (with_depth depth) (sym h.0 ∙ same_key_eq j _ e))
      | inr e ↦ rw e (line_or_new-key lines lineno func_lineno filename depth h.1)
    ]

-- From lines on, the call leaves them with the keys added.
abbrev pub Adds : List Key → Lines → Result Lines → Type 0
Adds keys lines r =
    Returns
      (λ (lines' : Lines).
        IsKeyed lines' × ((k : Key) → has_line k lines' ≡ (has_line k lines || member k keys)))
      r

pub member-append :
    (k : Key) (keys others : List Key)
    → member k (keys ++ others) ≡ (member k keys || member k others)
member-append k [] others = refl
member-append k (j ∷ keys) others =
    ap (λ (b : Bool). same_key j k || b) (member-append k keys others)
    ∙ sym (or_assoc (same_key j k) (member k keys) (member k others))

pub Adds-bind :
    (keys others : List Key) (lines : Lines) (m : Result Lines) (f : Lines → Result Lines)
    → Adds keys lines m
    → ((lines' : Lines) → IsKeyed lines' → Adds others lines' (f lines'))
    → Adds (keys ++ others) lines (m >>= f)
Adds-bind keys others lines (err e) f h next = h
Adds-bind keys others lines (ok lines') f h next = after (f lines') (next lines' h.0)
  where
    after : (r : Result Lines) → Adds others lines' r → Adds (keys ++ others) lines r
    after (err e) b = b
    after (ok last) b = (
      b.0,
      λ k.
          b.1 k
          ∙ ap (λ (b : Bool). b || member k others) (h.1 k)
          ∙ or_assoc (has_line k lines) (member k keys) (member k others)
          ∙ ap (λ (b : Bool). has_line k lines || b) (sym (member-append k keys others)),
    )

pub Adds-nothing : (lines : Lines) → IsKeyed lines → Adds [] lines (ok lines)
Adds-nothing lines h = (h, λ k. or_comm false (has_line k lines))

pub Adds-put_line :
    (c : CallResult) (key : Key) (lines : Lines)
    → IsKeyed lines
    → key_of c ≡ key
    → Adds (key ∷ []) lines (ok (put_line (key_of c) c lines))
Adds-put_line c key lines h e = (
  put_line-IsKeyed c lines h,
  λ k.
      has_line-put_line k (key_of c) c lines
      ∙ ap (λ (x : Key). same_key x k || has_line k lines) e
      ∙ or_comm (same_key key k) (has_line k lines)
      ∙ ap (λ (b : Bool). has_line k lines || b) (or_comm false (same_key key k)),
)
