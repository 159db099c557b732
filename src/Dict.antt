-- ===== src/Dict.antt =====
-- Python's `dict` with text keys, in order of insertion.
pub mod Laws
use levin.Prelude.{Bool, true, false, Option, none, some, List, [], ◌∷◌, ◌++◌, map, if◌then◌else◌}
use levin.Bytes.{Bytes, eqb}

abbrev pub Dict {ℓ} : Type ℓ → Type ℓ
Dict V = List (Bytes × V)

module _ {ℓ} {V : Type ℓ} where
  -- d.get(k)
  unfoldable pub lookup : Bytes → Dict V → Option V
  lookup k [] = none
  lookup k ((j, v) ∷ d) = if eqb j k then some v else lookup k d

  -- d[k] = v: the place of a key that is there stays.
  unfoldable pub put : Bytes → V → Dict V → Dict V
  put k v [] = (k, v) ∷ []
  put k v ((j, w) ∷ d) = if eqb j k then (j, v) ∷ d else (j, w) ∷ put k v d

  -- del d[k]
  unfoldable pub without : Bytes → Dict V → Dict V
  without k [] = []
  without k ((j, v) ∷ d) = if eqb j k then d else (j, v) ∷ without k d

  -- k in d
  unfoldable pub has_key : Bytes → Dict V → Bool
  has_key k [] = false
  has_key k ((j, v) ∷ d) = if eqb j k then true else has_key k d

  -- {**d, **e}
  unfoldable pub merge : Dict V → Dict V → Dict V
  unfolding put
  merge d [] = d
  merge d ((k, v) ∷ e) = merge (put k v d) e

  abbrev pub keys : Dict V → List Bytes
  keys [] = []
  keys ((k, v) ∷ d) = k ∷ keys d
