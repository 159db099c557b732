-- ===== src/Common/HeaderLaws.antt =====
-- levin/core/common.py: what `_create_headers_map` holds under each name.
use levin.Prelude.{
  ◌≡◌, refl, ◌∙◌, ap, false, Option, none, some, List, [], ◌∷◌, ◌++◌, arith, if◌then◌else◌,
  append-nil, append_assoc, Option-cases, inl, inr,
}
use levin.Bytes.{Bytes, codes, lower, join, eqb}
use levin.Bytes.Equality.{eqb_iff, lower_idem}
use levin.Dict.{Dict, lookup, put, has_key}
use levin.Dict.Laws.{lookup-put, has_key-put, lookup_of_absent}
use levin.Common.{append_value, group_headers, join_headers, create_headers_map}
use levin.Common.Proxy
use levin.Common.Proxy.{HeadersProxy}

-- The values that the raw headers give a name, in order, whatever the case of the name.
pub values_of : Bytes → List (Bytes × Bytes) → List Bytes
values_of n [] = []
values_of n ((name, value) ∷ rest) =
    if eqb (lower name) n then value ∷ values_of n rest else values_of n rest

-- No header, or the joined values.
abbrev pub joined : List Bytes → Option Bytes
joined [] = none
joined (v ∷ vs) = some (join (codes "; ") (v ∷ vs))

abbrev extend : Option (List Bytes) → List Bytes → Option (List Bytes)
extend none [] = none
extend none (v ∷ vs) = some (v ∷ vs)
extend (some ws) vs = some (ws ++ vs)

lookup-append_value :
    (n name value : Bytes) (d : Dict (List Bytes))
    → lookup n (append_value name value d)
      ≡ (if eqb name n then extend (lookup n d) (value ∷ []) else lookup n d)
unfolding append_value
lookup-append_value n name value d = elim (Option-cases (lookup name d)) [
  | inl e ↦ ground (arith, eqb_iff name n, lookup-put name n (value ∷ []) d)
  | inr (vs, e) ↦ ground (arith, eqb_iff name n, lookup-put name n (vs ++ value ∷ []) d)
]

extend_assoc :
    (o : Option (List Bytes)) (v : Bytes) (vs : List Bytes)
    → extend (extend o (v ∷ [])) vs ≡ extend o (v ∷ vs)
extend_assoc none v vs = refl
extend_assoc (some ws) v vs = ap some (append_assoc ws (v ∷ []) vs)

extend_nil : (o : Option (List Bytes)) → extend o [] ≡ o
extend_nil none = refl
extend_nil (some ws) = ap some (append-nil ws)

lookup-group_headers :
    (n : Bytes) (headers : List (Bytes × Bytes)) (d : Dict (List Bytes))
    → lookup n (group_headers d headers) ≡ extend (lookup n d) (values_of n headers)
unfolding group_headers values_of
lookup-group_headers n [] d = rw extend_nil
lookup-group_headers n ((name, value) ∷ rest) d = ground (
  arith,
  lookup-group_headers n rest (append_value (lower name) value d),
  lookup-append_value n (lower name) value d,
  extend_assoc (lookup n d) value (values_of n rest),
)

-- Every key once, and in lower case.
abbrev IsKeyed {ℓ} : {V : Type ℓ} → Dict V → Type 0
IsKeyed [] = Unit
IsKeyed ((k, v) ∷ d) = (lower k ≡ k) × (has_key k d ≡ false) × IsKeyed d

put-IsKeyed {ℓ} :
    {V : Type ℓ} (k : Bytes) (v : V) (d : Dict V) → lower k ≡ k → IsKeyed d → IsKeyed (put k v d)
unfolding put has_key
put-IsKeyed k v [] h _ = (h, refl, tt)
put-IsKeyed k v ((j, w) ∷ d) h (p, q, r) =
    ground (arith, put-IsKeyed k v d h r, has_key-put k j v d, eqb_iff j k, eqb_iff k j)

append_value-IsKeyed :
    (name value : Bytes) (d : Dict (List Bytes))
    → lower name ≡ name
    → IsKeyed d
    → IsKeyed (append_value name value d)
unfolding append_value
append_value-IsKeyed name value d h k =
    elim (lookup name d)
      as (λ o. IsKeyed (elim o [
        | none ↦ put name (value ∷ []) d
        | some values ↦ put name (values ++ value ∷ []) d
      ])) [
        | none ↦ put-IsKeyed name (value ∷ []) d h k
        | some values ↦ put-IsKeyed name (values ++ value ∷ []) d h k
      ]

group_headers-IsKeyed :
    (headers : List (Bytes × Bytes)) (d : Dict (List Bytes))
    → IsKeyed d
    → IsKeyed (group_headers d headers)
unfolding group_headers
group_headers-IsKeyed [] d k = k
group_headers-IsKeyed ((name, value) ∷ rest) d k =
    group_headers-IsKeyed rest (append_value (lower name) value d)
      (append_value-IsKeyed (lower name) value d (lower_idem name) k)

abbrev joined_or : Option Bytes → Option (List Bytes) → Option Bytes
joined_or before none = before
joined_or before (some vs) = some (join (codes "; ") vs)

lookup-join_headers :
    (n : Bytes) (d : Dict (List Bytes)) (done : Dict Bytes)
    → IsKeyed d
    → lookup n (join_headers done d) ≡ joined_or (lookup n done) (lookup n d)
unfolding join_headers lookup
lookup-join_headers n [] done h = refl
lookup-join_headers n ((name, values) ∷ d) done (p, q, r) = ground (
  arith,
  lookup-join_headers n d (put (lower name) (join (codes "; ") values) done) r,
  lookup-put (lower name) n (join (codes "; ") values) done,
  lookup_of_absent name d q,
  eqb_iff name n,
)

joined-extend : (vs : List Bytes) → joined_or none (extend none vs) ≡ joined vs
joined-extend [] = refl
joined-extend (v ∷ vs) = refl

-- Under each name the map holds the values that the raw headers give that name in any case, in
-- their order and joined by "; ", and nothing where they give none.
pub lookup-create_headers_map :
    (n : Bytes) (headers : List (Bytes × Bytes))
    → lookup n (create_headers_map headers) ≡ joined (values_of n headers)
unfolding create_headers_map lookup
lookup-create_headers_map n headers =
    lookup-join_headers n (group_headers [] headers) [] (group_headers-IsKeyed headers [] tt)
    ∙ ap (joined_or none) (lookup-group_headers n headers [])
    ∙ joined-extend (values_of n headers)

-- A read through the proxy does not depend on the case of the name, neither of the name that is
-- asked for nor of those in the raw headers.
pub get-create_headers_map :
    (item : Bytes) (headers : List (Bytes × Bytes))
    → Proxy.get (record { target = create_headers_map headers }) item
      ≡ joined (values_of (lower item) headers)
unfolding Proxy.get
get-create_headers_map item headers = lookup-create_headers_map (lower item) headers
