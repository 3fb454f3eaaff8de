-- ===== src/Sampleapp/Found.antt =====
-- What `filePathWalkDir` and the tests of the labels find.
use clusteradm.Base.{
  ◌≡◌, ◌≢◌, refl, sym, ap, ◌∙◌, ◌↔◌, ◌⊎◌, inl, inr, true, false, not, Bool-cases, Option-cases,
  text_eq, eq_iff, arith, In, String, none, some, List, [], ◌∷◌,
}
use clusteradm.Sampleapp.{Entry, label_of, lacks, files_of}

-- A walk found the file, and it is no directory.
abbrev pub IsFile : List Entry → String → Type 0
IsFile entries file =
    (entry : Entry) × In entry entries × (entry.is_dir ≡ false) × (entry.path ≡ file)

pub files_of-In :
    (entries : List Entry) (file : String) → In file (files_of entries) ↔ IsFile entries file
files_of-In [] file = (λ i. elim i [ ], λ found. elim found.1 [ ])
files_of-In (entry ∷ entries) file = elim (Bool-cases entry.is_dir) [
  | inl dir ↦ (
    λ i.
        let i' : In file (files_of entries) = rw dir at i in
        let (e, there, plain, same) = (files_of-In entries file).0 i' in
        (e, inr there, plain, same),
    λ found.
        let (e, there, plain, same) = found in
        elim there [
          | inl here ↦ let both = sym plain ∙ ap (λ x. x.is_dir) here ∙ dir in absurd (cc)
          | inr later ↦ rw dir ((files_of-In entries file).1 (e, later, plain, same))
        ],
  )
  | inr other ↦ (
    λ i.
        let i' : (file ≡ entry.path) ⊎ In file (files_of entries) = rw other at i in
        elim i' [
          | inl e ↦ (entry, inl refl, other, sym e)
          | inr later ↦
              let (e, there, plain, same) = (files_of-In entries file).0 later in
              (e, inr there, plain, same)
        ],
    λ found.
        let (e, there, plain, same) = found in
        elim there [
          | inl here ↦ rw other (inl (sym same ∙ ap (λ x. x.path) here))
          | inr later ↦ rw other (inr ((files_of-In entries file).1 (e, later, plain, same)))
        ],
  )
]

-- No entry of the labels has the key, or one has it with another value.
abbrev pub IsLacked : List (String × String) → String → String → Type 0
IsLacked labels key value =
    ((v : String) → ¬ (In (key, v) labels)) ⊎ ((v : String) × In (key, v) labels × (v ≢ value))

label_of-In :
    (key : String) (labels : List (String × String))
    → (label_of key labels ≡ none → (v : String) → ¬ (In (key, v) labels))
      × ((v : String) → label_of key labels ≡ some v → In (key, v) labels)
label_of-In key [] = (λ h v i. elim i [ ], λ v h. absurd (cc))
label_of-In key ((k, w) ∷ labels) = elim (Bool-cases (text_eq k key)) [
  | inl same ↦ (
    λ h. let h' : some w ≡ none = rw same at h in absurd (cc),
    λ v h.
        let h' : some w ≡ some v = rw same at h in
        let value : w ≡ v = cc in
        let here : k ≡ key = ground (arith, eq_iff k key) in
        inl (ap (λ x. (x, v)) (sym here) ∙ ap (λ x. (k, x)) (sym value)),
  )
  | inr other ↦ (
    λ h v i.
        let h' : label_of key labels ≡ none = rw other at h in
        elim i [
          | inl e ↦
              let here : k ≡ key = sym (ap (λ x. x.0) e) in
              let same : text_eq k key ≡ true = ground (arith, eq_iff k key) in absurd (cc)
          | inr later ↦ (label_of-In key labels).0 h' v later
        ],
    λ v h.
        let h' : label_of key labels ≡ some v = rw other at h in
        inr ((label_of-In key labels).1 v h'),
  )
]

pub lacks-IsLacked :
    (labels : List (String × String)) (key value : String)
    → lacks (label_of key labels) value ≡ true
    → IsLacked labels key value
lacks-IsLacked labels key value h = elim (Option-cases (label_of key labels)) [
  | inl missing ↦ inl ((label_of-In key labels).0 missing)
  | inr (v, found) ↦
      let h' : not (text_eq v value) ≡ true = rw found at h in
      inr (v, (label_of-In key labels).1 v found, λ e. ground (arith, eq_iff v value))
]
