-- ===== src/Printer/Trie/Bounds.antt =====
-- The indices of `DefaultSegmenter` of trie.go stay within the path.
use clusteradm.Base.{
  ℕ, zero, suc, ◌+◌, ◌-◌, ◌≡◌, ◌<◌, ◌≤◌, refl, sym, ◌∙◌, ap, subst, inl, inr, ◌||◌, none, some, [],
  ◌∷◌, ◌++◌, All, length, take, take-append-drop, drop, drop-drop, length-drop, Bytes, ltb, ◌==◌,
  arith, Bool-cases, Option-cases,
}
use clusteradm.Printer.Trie.{index_dot, Segmented, default_segmenter}

length-take : (n : ℕ) (xs : Bytes) → n ≤ length xs → length (take n xs) ≡ n
length-take zero xs h = refl
length-take (suc n) [] h = absurd (omega (arith, h))
length-take (suc n) (x ∷ xs) h = ap suc (length-take n xs (omega (arith, h)))

-- `IndexRune` answers where the first dot is.
index_dot-drop :
    (s : Bytes) (i : ℕ)
    → index_dot s ≡ some i
    → (i < length s) × ((rest : Bytes) × (drop i s ≡ b'.' ∷ rest))
unfolding index_dot
index_dot-drop [] i h = absurd (cc)
index_dot-drop (c ∷ s) i h = elim (Bool-cases (c == b'.')) [
  | inl dot ↦
      let h' : some 0 ≡ some i = rw dot at h in
      let first : 0 ≡ i = cc in
      let same : c ≡ b'.' = ground arith in
      subst (λ k. (k < suc (length s)) × ((rest : Bytes) × (drop k (c ∷ s) ≡ b'.' ∷ rest))) first
        (omega arith, (s, ap (λ d. d ∷ s) same))
  | inr other ↦ elim (Option-cases (index_dot s)) [
    | inl none_left ↦ let h' : none ≡ some i = rw (other, none_left) at h in absurd (cc)
    | inr (k, found) ↦
        let h' : some (suc k) ≡ some i = rw (other, found) at h in
        let next : suc k ≡ i = cc in
        let (inside, (rest, e)) = index_dot-drop s k found in
        subst (λ j. (j < suc (length s)) × ((rest : Bytes) × (drop j (c ∷ s) ≡ b'.' ∷ rest))) next
          (omega (arith, inside), (rest, e))
  ]
]

abbrev pub IsDotless : Bytes → Type 0
IsDotless s = All (λ b. ¬ (b ≡ b'.')) s

-- What stands before the first dot, or everything if `IndexRune` finds none, has no dot.
index_dot-IsDotless :
    (s : Bytes)
    → (index_dot s ≡ none → IsDotless s) × ((i : ℕ) → index_dot s ≡ some i → IsDotless (take i s))
unfolding index_dot
index_dot-IsDotless [] = (λ h. tt, λ i h. absurd (cc))
index_dot-IsDotless (c ∷ s) = elim (Bool-cases (c == b'.')) [
  | inl dot ↦ (
    λ h. let h' : some 0 ≡ none = rw dot at h in absurd (cc),
    λ i h.
        let h' : some 0 ≡ some i = rw dot at h in
        let first : 0 ≡ i = cc in subst (λ k. IsDotless (take k (c ∷ s))) first tt,
  )
  | inr other ↦
      let no_dot : ¬ (c ≡ b'.') = λ e. ground arith in
      elim (Option-cases (index_dot s)) [
        | inl none_left ↦ (
          λ h. (no_dot, (index_dot-IsDotless s).0 none_left),
          λ i h. let h' : none ≡ some i = rw (other, none_left) at h in absurd (cc),
        )
        | inr (k, found) ↦ (
          λ h. let h' : some (suc k) ≡ none = rw (other, found) at h in absurd (cc),
          λ i h.
              let h' : some (suc k) ≡ some i = rw (other, found) at h in
              let next : suc k ≡ i = cc in
              subst (λ j. IsDotless (take j (c ∷ s))) next
                (no_dot, (index_dot-IsDotless s).1 k found),
        )
      ]
]

drop-first : (n : ℕ) (xs : Bytes) → n < length xs → (c : ℕ) × (drop n xs ≡ c ∷ drop (n + 1) xs)
drop-first n [] h = absurd (omega (arith, h))
drop-first zero (x ∷ xs) h = (x, refl)
drop-first (suc n) (x ∷ xs) h =
    let (c, e) = drop-first n xs (omega (arith, h)) in
    let there : suc (n + 1) ≡ suc n + 1 = omega arith in
    (c, e ∙ ap (λ k. c ∷ drop k (x ∷ xs)) there)

-- What a segment and the next index are, of a path from an index on: the path is over; or the segment is the
-- whole rest and there is no next one; or the next index is that of a dot of the path after the start, and
-- the segment is what stands between. Past its first byte a segment has no dot.
abbrev pub IsWithin : Bytes → ℕ → Segmented → Type 0
IsWithin path start ([], none) = length path ≤ start
IsWithin path start (c ∷ s, none) =
    (length (c ∷ s) + start ≡ length path) × (c ∷ s ≡ drop start path) × IsDotless s
IsWithin path start (s, some next) =
    (start < next)
    × (next < length path)
    × (length s + start ≡ next)
    × (s ++ drop next path ≡ drop start path)
    × ((rest : Bytes) × (drop next path ≡ b'.' ∷ rest))
    × ((first : ℕ) × (tail : Bytes) × (s ≡ first ∷ tail) × IsDotless tail)

rest-IsWithin :
    (path : Bytes) (start : ℕ) (s : Bytes)
    → start < length path
    → s ≡ drop start path
    → IsDotless (drop (start + 1) path)
    → IsWithin path start (s, none)
rest-IsWithin path start [] p e plain =
    absurd (omega (arith, p, length-drop start path, ap length e))
rest-IsWithin path start (c ∷ s) p e plain =
    let (c', e') = drop-first start path p in
    (
      omega (arith, p, length-drop start path, ap length e),
      e,
      subst IsDotless (ap (drop 1) (sym (e ∙ e'))) plain,
    )

-- From an index, `DefaultSegmenter` answers nothing exactly when the path is over, or the whole rest of the
-- path, or the bytes up to a later index, which lies in the path and is that of the first dot after the start:
-- the segment with the rest from there on is the rest of the path, and past its first byte it has no dot.
-- No slice that it takes is out of range, and the index only grows.
pub default_segmenter-IsWithin :
    (path : Bytes) (start : ℕ) → IsWithin path start (default_segmenter path (some start))
unfolding default_segmenter
default_segmenter-IsWithin path start =
    elim (Bool-cases (length path == 0 || ltb (length path - 1) start)) [
      | inl out ↦
          let over : length path ≤ start = ground arith in
          let e : default_segmenter path (some start) ≡ ([], none) = rw out in
          subst (IsWithin path start) (sym e) over
      | inr inside ↦
          let before : start < length path = ground arith in
          elim (Option-cases (index_dot (drop (start + 1) path))) [
            | inl last ↦
                let e : default_segmenter path (some start) ≡ (drop start path, none) =
                  rw (inside, last, default_segmenter) in
                subst (IsWithin path start) (sym e) (
                  rest-IsWithin path start (drop start path) before refl
                    ((index_dot-IsDotless (drop (start + 1) path)).0 last))
            | inr (i, found) ↦
                let segment = take (i + 1) (drop start path) in
                let e : default_segmenter path (some start) ≡ (segment, some (start + i + 1)) =
                  rw (inside, found, default_segmenter) in
                let (short, (rest, dot)) = index_dot-drop (drop (start + 1) path) i found in
                let left = length-drop (start + 1) path in
                let long : i + 1 ≤ length (drop start path) =
                  omega (arith, length-drop start path, left, short) in
                let size = length-take (i + 1) (drop start path) long in
                let there : start + 1 + i ≡ start + i + 1 = omega arith in
                let (c, head) = drop-first start path before in
                let one_more : i + 1 ≡ suc i = omega arith in
                subst (IsWithin path start) (sym e) (
                  omega arith,
                  omega (arith, left, short),
                  omega (arith, size),
                  ap (λ d. segment ++ d) (sym (at_next start i))
                      ∙ take-append-drop (i + 1) (drop start path),
                  (
                    rest,
                    ap (λ k. drop k path) (sym there) ∙ sym (drop-drop i (start + 1) path) ∙ dot,
                  ),
                  (
                    c,
                    take i (drop (start + 1) path),
                    ap (λ k. take k (drop start path)) one_more ∙ ap (take (suc i)) head,
                    (index_dot-IsDotless (drop (start + 1) path)).1 i found,
                  ),
                )
          ]
    ]
  where
    at_next : (n i : ℕ) → drop (i + 1) (drop n path) ≡ drop (n + i + 1) path
    at_next n i =
        drop-drop (i + 1) n path
        ∙ ap (λ k. drop k path) (let e : n + (i + 1) ≡ n + i + 1 = omega arith in e)
