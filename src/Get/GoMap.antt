-- ===== src/Get/GoMap.antt =====
-- Go's maps from texts, as the get commands fill them: the last assignment to a key holds.
use clusteradm.Base.{
  ◌≡◌, refl, Bytes, bytes_eq, bytes_eq_sound, bytes_eq_refl, Option, none, some, List, [], ◌∷◌,
  ◌++◌, if◌then◌else◌, arith,
}

module _ {A : Type 0} where
  -- `v, ok := m[k]`
  unfoldable pub value_at : Bytes → List (Bytes × A) → Option A
  value_at k [] = none
  value_at k ((j, v) ∷ m) = let rest = value_at k m in if bytes_eq j k then some v else rest

  -- `m[k] = v`
  unfoldable pub put_at : Bytes → A → List (Bytes × A) → List (Bytes × A)
  put_at k v [] = (k, v) ∷ []
  put_at k v ((j, w) ∷ m) =
      let rest = put_at k v m in if bytes_eq j k then (j, v) ∷ m else (j, w) ∷ rest

  pub value_at-put_at :
      (k j : Bytes) (v : A) (m : List (Bytes × A))
      → value_at j (put_at k v m) ≡ (if bytes_eq k j then some v else value_at j m)
  unfolding value_at put_at
  value_at-put_at k j v [] = refl
  value_at-put_at k j v ((i, w) ∷ m) = ground (
    arith,
    bytes_eq_sound i k,
    bytes_eq_sound i j,
    bytes_eq_sound k j,
    bytes_eq_refl k,
    value_at-put_at k j v m,
  )

-- `m[k]` of slices, nil for a missing key.
abbrev pub slice_at : {A : Type 0} → Bytes → List (Bytes × List A) → List A
slice_at k m = elim (value_at k m) [ none ↦ [] | some v ↦ v ]

-- `m[k] = append(m[k], v)`
unfoldable pub append_at : {A : Type 0} → Bytes → A → List (Bytes × List A) → List (Bytes × List A)
unfolding put_at value_at
append_at k v m = put_at k (slice_at k m ++ v ∷ []) m

pub slice_at-append_at :
    {A : Type 0} (k j : Bytes) (v : A) (m : List (Bytes × List A))
    → slice_at j (append_at k v m) ≡ (if bytes_eq k j then slice_at j m ++ v ∷ [] else slice_at j m)
unfolding append_at
slice_at-append_at k j v m =
    ground (arith, value_at-put_at k j (slice_at k m ++ v ∷ []) m, bytes_eq_sound k j)
