-- ===== src/Bytes/Utf8.antt =====
-- `str.encode()` and `bytes.decode()`: the UTF-8 form of text. Surrogates, on which Python's `encode` raises,
-- are encoded like the rest.
use levin.Prelude.{
  ℕ, ◌-◌, ◌*◌, ◌≡◌, refl, true, ◌&&◌, ◌||◌, leb, Bool, Option, none, some, All, ◌==◌, arith, ◌+◌,
  ◌/◌, ◌%◌, [], ◌∷◌, ◌++◌, ltb, if◌then◌else◌,
}
use levin.Bytes.{Bytes, Str}
use levin.Result.{Result, ok, err, unicode_error, ◌>>=◌}

abbrev encode_char : ℕ → Bytes
encode_char c =
    if ltb c 128
    then c ∷ []
    else (if ltb c 2048
        then (192 + c / 64) ∷ (128 + c % 64) ∷ []
        else (if ltb c 65536
            then (224 + c / 4096) ∷ (128 + c / 64 % 64) ∷ (128 + c % 64) ∷ []
            else (240 + c / 262144)
              ∷ (128 + c / 4096 % 64)
              ∷ (128 + c / 64 % 64)
              ∷ (128 + c % 64)
              ∷ []))

unfoldable pub encode : Str → Bytes
encode [] = []
encode (c ∷ s) = encode_char c ++ encode s

-- How many more bytes the character has, the least one of that length, and the bits read so far
abbrev Pending : Type 0
Pending = ℕ × ℕ × ℕ

-- A surrogate, a character past the last one, or one that has a shorter form
abbrev is_illegal : ℕ → ℕ → Bool
is_illegal least c = ltb c least || ((leb 55296 c && ltb c 57344) || ltb 1114111 c)

-- A character's first byte
abbrev start_char : ℕ → Option (Pending × Str)
start_char c =
    if ltb c 128
    then some ((0, 0, 0), c ∷ [])
    else (if leb 194 c && ltb c 224
        then some ((1, 128, c - 192), [])
        else (if leb 224 c && ltb c 240
            then some ((2, 2048, c - 224), [])
            else (if leb 240 c && ltb c 245 then some ((3, 65536, c - 240), []) else none)))

-- A byte 128 + `bits` behind it
abbrev continue_char : ℕ → ℕ → ℕ → Option (Pending × Str)
continue_char left least c =
    if left == 1
    then (if is_illegal least c then none else some ((0, 0, 0), c ∷ []))
    else some ((left - 1, least, c), [])

decode_byte : Pending → ℕ → Option (Pending × Str)
decode_byte (left, least, seen) c =
    if left == 0
    then start_char c
    else (if leb 128 c && ltb c 192 then continue_char left least (seen * 64 + (c - 128)) else none)

decode_from : Pending → Bytes → Result Str
unfolding decode_byte
decode_from (left, least, seen) [] = if left == 0 then ok [] else err unicode_error
decode_from pending (c ∷ s) = elim (decode_byte pending c) [
  | none ↦ err unicode_error
  | some (next, text) ↦ decode_from next s >>= (λ more. ok (text ++ more))
]

unfoldable pub decode : Bytes → Result Str
unfolding decode_from
decode s = decode_from (0, 0, 0) s

abbrev pub IsAscii : Bytes → Type 0
IsAscii s = All (λ c. leb c 127 ≡ true) s

decode_byte_ascii : (c : ℕ) → leb c 127 ≡ true → decode_byte (0, 0, 0) c ≡ some ((0, 0, 0), c ∷ [])
unfolding decode_byte
decode_byte_ascii c h = let small : ltb c 128 ≡ true = ground (arith, h) in rw small refl

decode_from-IsAscii : (s : Bytes) → IsAscii s → decode_from (0, 0, 0) s ≡ ok s
unfolding decode_from
decode_from-IsAscii [] h = refl
decode_from-IsAscii (c ∷ s) h =
    rw (decode_from, decode_byte_ascii c h.0, decode_from-IsAscii s h.1) refl

-- ASCII bytes are the text of the same numbers.
pub decode-IsAscii : (s : Bytes) → IsAscii s → decode s ≡ ok s
unfolding decode
decode-IsAscii s h = decode_from-IsAscii s h

decoded_two : decode (195 ∷ 169 ∷ 65 ∷ []) ≡ ok (233 ∷ 65 ∷ [])
unfolding decode
decoded_two = refl

decoded_overlong : decode (192 ∷ 128 ∷ []) ≡ err unicode_error
unfolding decode
decoded_overlong = refl

decoded_surrogate : decode (237 ∷ 160 ∷ 128 ∷ []) ≡ err unicode_error
unfolding decode
decoded_surrogate = refl

decoded_long : decode (240 ∷ 159 ∷ 152 ∷ 128 ∷ []) ≡ ok (128512 ∷ [])
unfolding decode
decoded_long = refl
