-- ===== src/Accept/Clusters.antt =====
-- The cluster names that `complete` of pkg/cmd/accept/exec.go takes from the flag --clusters.
use clusteradm.Base.{
  ◌≡◌, refl, sym, ap, ◌⊎◌, inl, inr, true, false, String, List, [], ◌∷◌, text_eq, eq_iff, eq_refl,
  split, trim_space, contains, arith, In, Bool-cases,
}
use clusteradm.Effect.{ok, err}
use clusteradm.Errors.{Errors}
use clusteradm.Accept.{Options, distinct_trimmed, complete}

-- No text of the list stands in it twice.
abbrev pub AreDistinct : List String → Type 0
AreDistinct [] = Unit
AreDistinct (x ∷ xs) = (contains xs x ≡ false) × AreDistinct xs

In-contains : (x : String) (xs : List String) → In x xs → contains xs x ≡ true
In-contains x [] h = elim h [ ]
In-contains x (y ∷ ys) (inl e) = ground (arith, eq_iff y x)
In-contains x (y ∷ ys) (inr i) = ground (arith, In-contains x ys i)

-- Each piece that was not seen before has its trimmed form in the result.
pub distinct_trimmed_complete :
    (seen pieces : List String) (p : String)
    → In p pieces
    → contains seen p ≡ false
    → In (trim_space p) (distinct_trimmed seen pieces)
unfolding distinct_trimmed
distinct_trimmed_complete seen [] p i fresh = elim i [ ]
distinct_trimmed_complete seen (c ∷ cs) p i fresh = elim (Bool-cases (contains seen c)) [
  | inl known ↦ rw known (elim i [
    | inl e ↦ absurd (ground (arith, eq_iff c p))
    | inr j ↦ distinct_trimmed_complete seen cs p j fresh
  ])
  | inr new ↦ rw new (elim i [
    | inl e ↦ inl (ap trim_space e)
    | inr j ↦ elim (Bool-cases (text_eq c p)) [
      | inl same ↦ inl (ap trim_space (sym ((eq_iff c p).0 same)))
      | inr differ ↦ inr (distinct_trimmed_complete (c ∷ seen) cs p j (rw (differ, fresh)))
    ]
  ])
]

pub distinct_trimmed_sound :
    (seen pieces : List String) (v : String)
    → In v (distinct_trimmed seen pieces)
    → (p : String) × In p pieces × (v ≡ trim_space p)
unfolding distinct_trimmed
distinct_trimmed_sound seen [] v i = elim i [ ]
distinct_trimmed_sound seen (c ∷ cs) v i = elim (Bool-cases (contains seen c)) [
  | inl known ↦
      let j : In v (distinct_trimmed seen cs) = rw known at i in
      let (p, k, e) = distinct_trimmed_sound seen cs v j in (p, inr k, e)
  | inr new ↦
      let j : (v ≡ trim_space c) ⊎ In v (distinct_trimmed (c ∷ seen) cs) = rw new at i in
      elim j [
        | inl e ↦ (c, inl refl, e)
        | inr k ↦ let (p, l, e) = distinct_trimmed_sound (c ∷ seen) cs v k in (p, inr l, e)
      ]
]

-- What was seen before is not in the result, if trimming changes no piece.
distinct_trimmed-fresh :
    (seen pieces : List String) (p : String)
    → ((q : String) → In q pieces → trim_space q ≡ q)
    → contains seen p ≡ true
    → contains (distinct_trimmed seen pieces) p ≡ false
unfolding distinct_trimmed
distinct_trimmed-fresh seen [] p clean s = refl
distinct_trimmed-fresh seen (c ∷ cs) p clean s =
    let rest = λ (q : String) (i : In q cs). clean q (inr i) in
    ground (
      arith,
      clean c (inl refl),
      eq_iff c p,
      distinct_trimmed-fresh seen cs p rest s,
      distinct_trimmed-fresh (c ∷ seen) cs p rest,
    )

pub distinct_trimmed-AreDistinct :
    (seen pieces : List String)
    → ((q : String) → In q pieces → trim_space q ≡ q)
    → AreDistinct (distinct_trimmed seen pieces)
unfolding distinct_trimmed
distinct_trimmed-AreDistinct seen [] clean = tt
distinct_trimmed-AreDistinct seen (c ∷ cs) clean =
    let rest = λ (q : String) (i : In q cs). clean q (inr i) in
    elim (Bool-cases (contains seen c)) [
      | inl known ↦ rw known (distinct_trimmed-AreDistinct seen cs rest)
      | inr new ↦
          rw (new, clean c (inl refl))
            (
              distinct_trimmed-fresh (c ∷ seen) cs c rest (rw (eq_refl c)),
              distinct_trimmed-AreDistinct (c ∷ seen) cs rest,
            )
    ]

module _ (X : Errors) (o : Options) where
  abbrev pieces : List String
  pieces = split b',' o.clusters

  -- `complete` refuses an empty flag. Otherwise its cluster names are the pieces of the flag between the
  -- commas, trimmed: each piece gives a name and each name comes from a piece. No name is given twice if
  -- no piece has spaces around it.
  complete_names :
      ((o.clusters ≡ "") × (complete X o ≡ err (X.errorf "values or name are missing")))
      ⊎ ((o' : Options) × (complete X o ≡ ok o')
          × ((p : String) → In p pieces → In (trim_space p) o'.values_clusters)
          × ((v : String)
              → In v o'.values_clusters
              → (p : String) × In p pieces × (v ≡ trim_space p))
          × (((q : String) → In q pieces → trim_space q ≡ q) → AreDistinct o'.values_clusters))
  unfolding complete
  complete_names = elim (Bool-cases (text_eq o.clusters "")) [
    | inl e ↦ inl ((eq_iff o.clusters "").0 e, rw e)
    | inr e ↦ inr (
      record o { values_clusters = distinct_trimmed [] pieces },
      rw e,
      (λ p i. distinct_trimmed_complete [] pieces p i refl),
      (λ v i. distinct_trimmed_sound [] pieces v i),
      (λ clean. distinct_trimmed-AreDistinct [] pieces clean),
    )
  ]
