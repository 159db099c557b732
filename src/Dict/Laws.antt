-- ===== src/Dict/Laws.antt =====
-- Reading after writing, and which keys there are.
use levin.Prelude.{
  ◌≡◌, refl, ◌≢◌, true, false, none, some, [], ◌∷◌, ◌++◌, arith, if◌then◌else◌, Bool-cases, inl,
  inr,
}
use levin.Bytes.{Bytes, eqb}
use levin.Bytes.Equality.{eqb_iff, eqb_refl}
use levin.Dict.{Dict, lookup, put, has_key}

module _ {ℓ} {V : Type ℓ} where
  pub lookup-put :
      (k j : Bytes) (v : V) (d : Dict V)
      → lookup j (put k v d) ≡ (if eqb k j then some v else lookup j d)
  unfolding lookup put
  lookup-put k j v [] = refl
  lookup-put k j v ((i, w) ∷ d) =
      ground (arith, eqb_iff k j, eqb_iff i k, eqb_iff i j, lookup-put k j v d)

  pub lookup-put_self : (k : Bytes) (v : V) (d : Dict V) → lookup k (put k v d) ≡ some v
  lookup-put_self k v d = rw (lookup-put, eqb_refl)

  pub lookup-put_ne : (k j : Bytes) (v : V) (d : Dict V) → k ≢ j → lookup j (put k v d) ≡ lookup j d
  lookup-put_ne k j v d h = rw lookup-put (ground (arith, eqb_iff k j))

  pub has_key-put :
      (k j : Bytes) (v : V) (d : Dict V)
      → has_key j (put k v d) ≡ (if eqb k j then true else has_key j d)
  unfolding has_key put
  has_key-put k j v [] = refl
  has_key-put k j v ((i, w) ∷ d) =
      ground (arith, eqb_iff k j, eqb_iff i k, eqb_iff i j, has_key-put k j v d)

  pub lookup_of_absent : (k : Bytes) (d : Dict V) → has_key k d ≡ false → lookup k d ≡ none
  unfolding lookup has_key
  lookup_of_absent k [] h = refl
  lookup_of_absent k ((j, v) ∷ d) h = ground (arith, lookup_of_absent k d)

  pub has_key_of_lookup :
      (k : Bytes) (d : Dict V) {v : V} → lookup k d ≡ some v → has_key k d ≡ true
  unfolding lookup has_key
  has_key_of_lookup k [] {v} h = cc
  has_key_of_lookup k ((j, w) ∷ d) {v} h = ground (arith, has_key_of_lookup k d {v = v})

  pub lookup_of_present :
      (k : Bytes) (d : Dict V) → has_key k d ≡ true → (v : V) × (lookup k d ≡ some v)
  unfolding lookup has_key
  lookup_of_present k [] h = cc
  lookup_of_present k ((j, v) ∷ d) h = elim (Bool-cases (eqb j k)) [
    | inl e ↦ (v, rw e)
    | inr e ↦ rw e (lookup_of_present k d (rw e at h))
  ]

  -- A new key goes to the end.
  pub put_absent :
      (k : Bytes) (v : V) (d : Dict V) → has_key k d ≡ false → put k v d ≡ d ++ (k, v) ∷ []
  unfolding has_key put
  put_absent k v [] h = refl
  put_absent k v ((j, w) ∷ d) h = ground (arith, put_absent k v d)
