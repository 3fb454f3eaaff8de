-- ===== src/Printer/Trie/Paths.antt =====
-- The trie of trie.go as a map from paths, and the loops of `Get` and `Put` in terms of it.
use clusteradm.Base.{
  ℕ, zero, suc, ◌≡◌, refl, Bool, true, false, ◌&&◌, Option, none, some, List, [], ◌∷◌, Bytes,
  bytes_eq, bytes_eq_sound, bytes_eq_refl, if◌then◌else◌, arith, Option-cases, inl, inr,
}
use clusteradm.Printer.Trie.{
  Segmented, Segmenter, Trie, Children, node, end, child, value, children, lookup_child, set_child,
  child_or_new, get_loop, put_loop,
}
use clusteradm.Printer.Trie.Segments.{visited, visited-zero, visited-eq-nil, visited-eq-cons}

abbrev pub paths_eq : List Bytes → List Bytes → Bool
paths_eq [] [] = true
paths_eq [] (q ∷ qs) = false
paths_eq (p ∷ ps) [] = false
paths_eq (p ∷ ps) (q ∷ qs) = bytes_eq p q && paths_eq ps qs

pub paths_eq_sound : (ps qs : List Bytes) → paths_eq ps qs ≡ true → ps ≡ qs
paths_eq_sound [] [] h = refl
paths_eq_sound [] (q ∷ qs) h = cc
paths_eq_sound (p ∷ ps) [] h = cc
paths_eq_sound (p ∷ ps) (q ∷ qs) h = ground (arith, bytes_eq_sound p q, paths_eq_sound ps qs)

pub paths_eq_refl : (ps : List Bytes) → paths_eq ps ps ≡ true
paths_eq_refl [] = refl
paths_eq_refl (p ∷ ps) = rw (bytes_eq_refl p, paths_eq_refl ps)

-- Whether a value is nil.
abbrev pub is_nil {ℓ} : {V : Type ℓ} → Option V → Bool
is_nil none = true
is_nil (some v) = false

module _ {ℓ} {V : Type ℓ} where
  unfoldable pub get_path : List Bytes → Trie V → Option V
  get_path [] t = value t
  get_path (p ∷ ps) t = elim (lookup_child p (children t)) [ none ↦ none | some u ↦ get_path ps u ]

  pub put_path : List Bytes → Option V → Trie V → Trie V
  put_path [] v (node old cs) = node v cs
  put_path (p ∷ ps) v (node old cs) =
      node old (set_child p (put_path ps v (child_or_new (lookup_child p cs))) cs)

  lookup_child-set_child :
      (p q : Bytes) (u : Trie V) (cs : Children V)
      → lookup_child q (set_child p u cs) ≡ (if bytes_eq p q then some u else lookup_child q cs)
  unfolding lookup_child set_child
  lookup_child-set_child p q u end = refl
  lookup_child-set_child p q u (child k t cs) = ground (
    arith,
    bytes_eq_sound k p,
    bytes_eq_sound k q,
    bytes_eq_sound p q,
    bytes_eq_refl p,
    lookup_child-set_child p q u cs,
  )

  pub get_path-new : (ps : List Bytes) → get_path ps (node none end) ≡ none
  unfolding get_path lookup_child
  get_path-new [] = refl
  get_path-new (p ∷ ps) = refl

  get_path-child_or_new :
      (p : Bytes) (ps : List Bytes) (t : Trie V)
      → get_path ps (child_or_new (lookup_child p (children t))) ≡ get_path (p ∷ ps) t
  unfolding get_path
  get_path-child_or_new p ps t = ground (arith, get_path-new ps)

  pub get_path-put_path :
      (ps qs : List Bytes) (v : Option V) (t : Trie V)
      → get_path qs (put_path ps v t) ≡ (if paths_eq ps qs then v else get_path qs t)
  unfolding get_path put_path
  get_path-put_path [] [] v (node old cs) = refl
  get_path-put_path [] (q ∷ qs) v (node old cs) = refl
  get_path-put_path (p ∷ ps) [] v (node old cs) = refl
  get_path-put_path (p ∷ ps) (q ∷ qs) v (node old cs) =
      let u = child_or_new (lookup_child p cs) in
      ground (
        arith,
        lookup_child-set_child p q (put_path ps v u) cs,
        get_path-put_path ps qs v u,
        get_path-child_or_new p qs (node old cs),
        bytes_eq_sound p q,
      )

  module _ (segmenter : Segmenter) (key : Bytes) where
    pub get_loop-visited :
        (fuel : ℕ) (st : Segmented) (ps : List Bytes) (t : Trie V)
        → visited segmenter key fuel st ≡ some ps
        → get_loop segmenter key fuel st t ≡ some (get_path ps t)
    unfolding get_loop get_path
    get_loop-visited zero st ps t h = cc (visited-zero segmenter key st)
    get_loop-visited (suc fuel) ([], i) ps t h = rw (visited-eq-nil segmenter key fuel i ps h)
    get_loop-visited (suc fuel) (c ∷ part, i) ps t h =
        let (qs, rest, e) = visited-eq-cons segmenter key fuel c part i ps h in
        rw e (elim (Option-cases (lookup_child (c ∷ part) (children t))) [
          | inl missing ↦ rw (missing, get_loop, get_path)
          | inr (u, found) ↦
              rw (found, get_loop, get_path) (get_loop-visited fuel (segmenter key i) qs u rest)
        ])

    pub put_loop-visited :
        (fuel : ℕ) (st : Segmented) (ps : List Bytes) (v : Option V) (t : Trie V)
        → visited segmenter key fuel st ≡ some ps
        → put_loop segmenter key fuel st v t ≡ some (put_path ps v t, is_nil (get_path ps t))
    unfolding put_loop get_path put_path
    put_loop-visited zero st ps v t h = cc (visited-zero segmenter key st)
    put_loop-visited (suc fuel) ([], i) ps v (node old cs) h =
        rw (visited-eq-nil segmenter key fuel i ps h) (ground arith)
    put_loop-visited (suc fuel) (c ∷ part, i) ps v (node old cs) h =
        let (qs, rest, e) = visited-eq-cons segmenter key fuel c part i ps h in
        let u = child_or_new (lookup_child (c ∷ part) cs) in
        rw e (
          ground (
            arith,
            put_loop-visited fuel (segmenter key i) qs v u rest,
            get_path-child_or_new (c ∷ part) qs (node old cs),
          ))
