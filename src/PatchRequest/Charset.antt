-- ===== src/PatchRequest/Charset.antt =====
-- levin/components/common.py: which encodings `_encoding` can give.
use levin.Prelude.{
  ℕ, ◌++◌, ◌≡◌, ◌⊎◌, refl, ap, ◌∙◌, true, false, Option, none, some, List, [], ◌∷◌, arith, inl,
  is_empty, Bool, ◌&&◌, ◌||◌, if◌then◌else◌, Bool-cases, inr,
}
use levin.Bytes.{Bytes, Str, codes, eqb, lower, strip, split, contains_byte}
use levin.Bytes.Equality.{eqb_iff}
use levin.Bytes.Split.{Lacks, split-append}
use levin.Dict.{lookup}
use levin.Common.{Request}
use levin.PatchRequest.{
  before_first, find_charset, encoding_value, encoding, tail_of, content_type_header,
  default_encoding,
}

-- One of the two names that `_encoding` gives.
abbrev pub IsGiven : Str → Type 0
IsGiven name = (name ≡ codes "iso-8859-1") ⊎ (name ≡ codes "charset")

charset_name : (s : Bytes) → eqb s (codes "charset") ≡ true → lower s ≡ codes "charset"
unfolding lower
charset_name s h = ap lower ((eqb_iff s (codes "charset")).0 h)

find_charset-IsGiven : (metas : List Bytes) → IsGiven (find_charset metas)
unfolding find_charset
find_charset-IsGiven [] = inl refl
find_charset-IsGiven (meta ∷ metas) =
    ground
      (arith, find_charset-IsGiven metas, charset_name (strip (before_first b'=' (strip meta))))

encoding_value-IsGiven : (o : Option Bytes) → IsGiven (encoding_value o)
unfolding encoding_value
encoding_value-IsGiven none = inl refl
encoding_value-IsGiven (some content) =
    ground (arith, find_charset-IsGiven (tail_of (split b';' content)))

is_empty-append : (a : Bytes) (c : ℕ) (b : Bytes) → is_empty (a ++ c ∷ b) ≡ false
is_empty-append [] c b = refl
is_empty-append (x ∷ a) c b = refl

contains_byte-append : (a : Bytes) (c : ℕ) (b : Bytes) → contains_byte c (a ++ c ∷ b) ≡ true
unfolding contains_byte
contains_byte-append [] c b = ground (arith)
contains_byte-append (x ∷ a) c b = ground (arith, contains_byte-append a c b)

-- The parameter's name, with the blanks around it taken off, is "charset".
abbrev pub names_charset : Bytes → Bool
names_charset meta =
    contains_byte b'=' meta && eqb (strip (before_first b'=' (strip meta))) (codes "charset")

abbrev pub any_charset : List Bytes → Bool
any_charset [] = false
any_charset (meta ∷ metas) = names_charset meta || any_charset metas

find_charset_lem :
    (metas : List Bytes)
    → find_charset metas ≡ (if any_charset metas then codes "charset" else default_encoding)
unfolding find_charset
find_charset_lem [] = refl
find_charset_lem (meta ∷ metas) = elim (Bool-cases (contains_byte b'=' meta)) [
  | inr e ↦ rw e (find_charset_lem metas)
  | inl e ↦ elim (Bool-cases (eqb (strip (before_first b'=' (strip meta))) (codes "charset"))) [
    | inl k ↦ rw (e, k) (charset_name (strip (before_first b'=' (strip meta))) k)
    | inr k ↦ rw (e, k) (find_charset_lem metas)
  ]
]

encoding_named :
    (kind rest : Bytes)
    → Lacks b';' kind
    → encoding_value (some (kind ++ b';' ∷ rest))
      ≡ (if any_charset (split b';' rest) then codes "charset" else default_encoding)
unfolding encoding_value
encoding_named kind rest h =
    rw
      (
        is_empty-append kind b';' rest,
        contains_byte-append kind b';' rest,
        split-append b';' kind rest h,
      )
      (find_charset_lem (split b';' rest))

-- Whatever the headers say, `_encoding` gives the default or the word "charset".
pub encoding-IsGiven : (request : Request) → IsGiven (encoding request)
unfolding encoding
encoding-IsGiven request = encoding_value-IsGiven (lookup content_type_header request.headers)

-- Of a content type with parameters, `_encoding` gives the word "charset" where some parameter's name, in lower
-- case and with blanks around it or not, is "charset", whatever the value of that parameter is; and else
-- the default.
pub encoding_charset :
    (request : Request) (kind rest : Bytes)
    → Lacks b';' kind
    → lookup content_type_header request.headers ≡ some (kind ++ b';' ∷ rest)
    → encoding request
      ≡ (if any_charset (split b';' rest) then codes "charset" else codes "iso-8859-1")
unfolding encoding
encoding_charset request kind rest h e = ap encoding_value e ∙ encoding_named kind rest h
