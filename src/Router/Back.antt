-- ===== src/Router/Back.antt =====
-- levin/components/router.py: BACK_PATH_ARG and BACK_PATH_REPL, and `RegexpCondition` and `add` of a pattern that
-- the user compiled. The compiled pattern is its source, in the part of `re` that `compile` reads.
pub mod Given
use levin.Prelude.{
  ℕ, zero, suc, ◌+◌, ◌-◌, Option, none, some, [], ◌∷◌, ◌++◌, ◌==◌, if◌then◌else◌, min, take, drop,
}
use levin.Bytes.{Bytes, codes, starts_with}
use levin.Result.{Result, ok, err, raised}
use levin.Dict.{Dict}
use levin.Common.{Value}
use levin.Router.{regexp, Routes}
use levin.Router.Regexp.{is_word, compile}

-- The longest run of [-_a-zA-Z0-9] at the front
unfoldable pub word_length : Bytes → ℕ
word_length [] = 0
word_length (c ∷ s) = if is_word c then suc (word_length s) else 0

-- The place of the last ")" in front of the first "/", where [^/]+ followed by \) can end.
unfoldable pub last_paren : Bytes → Option ℕ
last_paren [] = none
last_paren (c ∷ s) =
    let later : Option ℕ = elim (last_paren s) [
      | none ↦ if c == b')' then some 0 else none
      | some n ↦ some (suc n)
    ] in
    if c == b'/' then none else later

-- How long the name is, and how much is matched behind "(?P<": the name is as long as it can be with one
-- byte at least between it and the parenthesis.
match_at : ℕ → Option ℕ → Option (ℕ × ℕ)
match_at n none = none
match_at n (some p) = let size = min n (p - 1) in if size == 0 then none else some (size, suc p)

unfoldable pub match_back : Bytes → Option (ℕ × ℕ)
unfolding match_at word_length last_paren
match_back s =
    if starts_with (codes "(?P<") s
    then match_at (word_length (drop 4 s)) (last_paren (drop 4 s))
    else none

-- BACK_PATH_ARG.sub(BACK_PATH_REPL, source), `skip` bytes of which are matched already
unfoldable pub back_from : (skip : ℕ) → Bytes → Bytes
unfolding match_back
back_from skip [] = []
back_from (suc skip) (c ∷ s) = back_from skip s
back_from zero (c ∷ s) = elim (match_back (c ∷ s)) [
  | none ↦ c ∷ back_from 0 s
  | some (size, matched) ↦ (b'{' ∷ take size (drop 3 s)) ++ b'}' ∷ back_from (3 + matched) s
]

-- HttpRouter.add(method, re.compile(source), handler, **meta): no slash is appended.
unfoldable pub add_compiled : Bytes → Bytes → ℕ → Dict Value → Routes → Result Routes
unfolding back_from
add_compiled method source handler meta routes = elim (compile source) [
  | none ↦ err (raised 0)
  | some items ↦ ok (routes ++ (regexp method (back_from 0 source) meta items, handler) ∷ [])
]
