-- ===== src/Printer/Trie/Segments.antt =====
-- The segments that a loop of trie.go visits, for the default segmenter.
use mathlib.Core.List.{flatten, append-nil}
use clusteradm.Base.{
  ℕ, zero, suc, ◌+◌, ◌-◌, ◌≤◌, ◌<◌, ◌≡◌, refl, sym, ◌⊎◌, inl, inr, ◌||◌, Option, none, some, List,
  [], ◌∷◌, ◌++◌, length, take, drop, Bytes, ltb, ◌==◌, arith, Bool-cases, Option-cases, length-drop,
  take-append-drop, drop-drop,
}
use clusteradm.Printer.Trie.{Segmented, Segmenter, default_segmenter, index_dot, enough}

module _ (segmenter : Segmenter) (key : Bytes) where
  -- The non-empty segments up to the first empty one; `none` is out of fuel.
  pub visited : ℕ → Segmented → Option (List Bytes)
  visited zero st = none
  visited (suc fuel) ([], i) = some []
  visited (suc fuel) (c ∷ part, i) = elim (visited fuel (segmenter key i)) [
    | none ↦ none
    | some ps ↦ some ((c ∷ part) ∷ ps)
  ]

take_pos : (n : ℕ) (xs : Bytes) → 0 < n → 0 < length xs → 0 < length (take n xs)
take_pos n [] p q = absurd (omega arith)
take_pos zero (x ∷ xs) p q = absurd (omega arith)
take_pos (suc n) (x ∷ xs) p q = omega arith

drop_all : (i : ℕ) (xs : Bytes) → length xs ≤ i → drop i xs ≡ []
drop_all zero [] h = refl
drop_all (suc i) [] h = refl
drop_all zero (x ∷ xs) h = absurd (omega arith)
drop_all (suc i) (x ∷ xs) h = drop_all i xs (omega arith)

-- What the default segmenter answers at an index: nothing past the end, the rest of the key, or the
-- bytes before the next dot with the dot's index.
segment_cases :
    (key : Bytes) (i : ℕ)
    → ((length key ≤ i) × (default_segmenter key (some i) ≡ ([], none)))
      ⊎ (((i < length key) × (default_segmenter key (some i) ≡ (drop i key, none)))
          ⊎ ((e : ℕ) × (i < length key)
              × (default_segmenter key (some i) ≡ (take (e + 1) (drop i key), some (i + e + 1)))))
unfolding default_segmenter
segment_cases key i = elim (Bool-cases (length key == 0 || ltb (length key - 1) i)) [
  | inl out ↦ inl (ground arith, rw out)
  | inr inside ↦ inr (elim (Option-cases (index_dot (drop (i + 1) key))) [
    | inl last ↦ inl (ground arith, rw (inside, last, default_segmenter))
    | inr (e, found) ↦ inr (e, ground arith, rw (inside, found, default_segmenter))
  ])
]

module _ (segmenter : Segmenter) (key : Bytes) where
  visited_end : (fuel : ℕ) (i : Option ℕ) → 0 < fuel → visited segmenter key fuel ([], i) ≡ some []
  unfolding visited
  visited_end zero i h = absurd (omega arith)
  visited_end (suc fuel) i h = refl

  visited_step :
      (fuel : ℕ) (part : Bytes) (i : Option ℕ) (ps : List Bytes)
      → 0 < length part
      → visited segmenter key fuel (segmenter key i) ≡ some ps
      → visited segmenter key (suc fuel) (part, i) ≡ some (part ∷ ps)
  unfolding visited
  visited_step fuel [] i ps p e = absurd (omega arith)
  visited_step fuel (c ∷ part) i ps p e = rw (e, visited)

-- What a loop that has ended visited: nothing at an empty segment, else the segment and the rest.
module _ (segmenter : Segmenter) (key : Bytes) where
  pub visited-zero : (st : Segmented) → visited segmenter key zero st ≡ none
  unfolding visited
  visited-zero st = refl

  pub visited-eq-nil :
      (fuel : ℕ) (i : Option ℕ) (ps : List Bytes)
      → visited segmenter key (suc fuel) ([], i) ≡ some ps
      → ps ≡ []
  unfolding visited
  visited-eq-nil fuel i ps h = cc

  pub visited-eq-cons :
      (fuel c : ℕ) (part : Bytes) (i : Option ℕ) (ps : List Bytes)
      → visited segmenter key (suc fuel) (c ∷ part, i) ≡ some ps
      → (qs : List Bytes) × (visited segmenter key fuel (segmenter key i) ≡ some qs)
        × (ps ≡ (c ∷ part) ∷ qs)
  unfolding visited
  visited-eq-cons fuel c part i ps h =
      elim (Option-cases (visited segmenter key fuel (segmenter key i))) [
        | inl e ↦ absurd (ground (arith, e))
        | inr (qs, e) ↦ (qs, e, ground (arith, e))
      ]

segmenter_end : (key : Bytes) → default_segmenter key none ≡ ([], none)
unfolding default_segmenter
segmenter_end key = refl

joined_at :
    (key : Bytes) (i e : ℕ) (rest : Bytes)
    → rest ≡ drop (i + e + 1) key
    → take (e + 1) (drop i key) ++ rest ≡ drop i key
joined_at key i e rest h =
    let shift : i + (e + 1) ≡ i + e + 1 = omega arith in
    rw (h, ← shift, ← drop-drop (e + 1) i key) (take-append-drop (e + 1) (drop i key))

-- From any index the loop ends, and the segments that it has visited make up the rest of the key.
visited_from :
    (key : Bytes) (fuel i : ℕ)
    → suc (length key - i) < fuel
    → (ps : List Bytes) × (visited default_segmenter key fuel (default_segmenter key (some i))
        ≡ some ps)
      × (flatten ps ≡ drop i key)
unfolding flatten
visited_from key zero i h = absurd (omega arith)
visited_from key (suc fuel) i h = elim (segment_cases key i) [
  | inl (past, e) ↦ (
    [],
    rw e (visited_end default_segmenter key (suc fuel) none (omega arith)),
    sym (drop_all i key past),
  )
  | inr (inl (inside, e)) ↦ (
    drop i key ∷ [],
    rw e (
        visited_step default_segmenter key fuel (drop i key) none []
          (omega (arith, length-drop i key))
          (rw (segmenter_end key) (visited_end default_segmenter key fuel none (omega arith)))),
    append-nil (drop i key),
  )
  | inr (inr (e, inside, found)) ↦
      let (ps, seen, joined) = visited_from key fuel (i + e + 1) (omega arith) in
      (
        take (e + 1) (drop i key) ∷ ps,
        rw found (
            visited_step default_segmenter key fuel (take (e + 1) (drop i key)) (some (i + e + 1))
              ps (take_pos (e + 1) (drop i key) (omega arith) (omega (arith, length-drop i key)))
              seen),
        joined_at key i e (flatten ps) joined,
      )
]

-- The loop over a key ends within the fuel, and its segments make up the key.
pub visited_key :
    (key : Bytes)
    → (ps : List Bytes) × (visited default_segmenter key
          (enough key)
          (default_segmenter key (some 0))
        ≡ some ps)
      × (flatten ps ≡ key)
visited_key key = visited_from key (enough key) 0 (omega arith)

-- The segments of a key: cut before each dot but one in front.
pub segments : Bytes → List Bytes
segments key = (visited_key key).0

pub segments-visited :
    (key : Bytes)
    → visited default_segmenter key (enough key) (default_segmenter key (some 0))
      ≡ some (segments key)
unfolding segments
segments-visited key = (visited_key key).1

pub flatten-segments : (key : Bytes) → flatten (segments key) ≡ key
unfolding segments
flatten-segments key = (visited_key key).2
