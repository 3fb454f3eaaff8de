-- ===== src/Printer/Trie/Laws.antt =====
-- What `Get` and `Put` of trie.go do with whole keys, over the default segmenter.
use mathlib.Core.List.{flatten}
use clusteradm.Base.{
  ◌≡◌, sym, ap, ◌∙◌, Option, some, inl, inr, Bytes, bytes_eq, bytes_eq_sound, bytes_eq_refl,
  if◌then◌else◌, arith, Bool-cases,
}
use clusteradm.Printer.Trie.{Trie, default_segmenter, get, put, enough}
use clusteradm.Printer.Trie.Segments.{segments, segments-visited, flatten-segments}
use clusteradm.Printer.Trie.Paths.{
  paths_eq, paths_eq_sound, paths_eq_refl, is_nil, get_path, put_path, get_path-put_path,
  get_loop-visited, put_loop-visited,
}

-- Two keys have the same segments exactly when they are the same key.
paths_eq-segments : (k j : Bytes) → paths_eq (segments k) (segments j) ≡ bytes_eq k j
paths_eq-segments k j = elim (Bool-cases (bytes_eq k j)) [
  | inl same ↦ rw (bytes_eq_sound k j same, bytes_eq_refl j) (paths_eq_refl (segments j))
  | inr differ ↦ elim (Bool-cases (paths_eq (segments k) (segments j))) [
    | inl e ↦
        let joined : k ≡ j =
          sym (flatten-segments k)
          ∙ ap flatten (paths_eq_sound (segments k) (segments j) e)
          ∙ flatten-segments j in
        cc (joined, bytes_eq_refl j)
    | inr e ↦ rw (e, differ)
  ]
]

module _ {ℓ} {V : Type ℓ} where
  pub get-eq-get_path :
      (key : Bytes) (t : Trie V) → get default_segmenter key t ≡ some (get_path (segments key) t)
  unfolding get
  get-eq-get_path key t =
      get_loop-visited default_segmenter key (enough key) _ (segments key) t (segments-visited key)

  pub put-eq-put_path :
      (key : Bytes) (v : Option V) (t : Trie V)
      → put default_segmenter key v t
        ≡ some (put_path (segments key) v t, is_nil (get_path (segments key) t))
  unfolding put
  put-eq-put_path key v t =
      put_loop-visited default_segmenter key (enough key) _ (segments key) v t
        (segments-visited key)

  -- `Put` of a key always ends. It answers that the value is new exactly when `Get` gave nil before.
  -- Afterwards `Get` of that key gives the value that was put, and `Get` of any other key gives what it
  -- gave before.
  pub get-put :
      (key : Bytes) (v : Option V) (t : Trie V)
      → (old : Option V) × (t' : Trie V) × (get default_segmenter key t ≡ some old)
        × (put default_segmenter key v t ≡ some (t', is_nil old))
        × ((j : Bytes)
            → get default_segmenter j t'
              ≡ (if bytes_eq key j then some v else get default_segmenter j t))
  get-put key v t = (
    get_path (segments key) t,
    put_path (segments key) v t,
    get-eq-get_path key t,
    put-eq-put_path key v t,
    λ j.
        rw (get-eq-get_path j (put_path (segments key) v t), get-eq-get_path j t)
          (ground
            (arith, get_path-put_path (segments key) (segments j) v t, paths_eq-segments key j)),
  )
