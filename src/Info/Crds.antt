-- ===== src/Info/Crds.antt =====
-- Which CRDs the resources of an operator name, and which are installed.
use clusteradm.Base.{
  ◌≡◌, refl, sym, ap, ◌∙◌, subst, ◌⊎◌, inl, inr, Bytes, bytes, bytes_eq, bytes_eq_sound,
  bytes_eq_refl, true, List, [], ◌∷◌, In, Bool-cases,
}
use clusteradm.Info.{Crd, RelatedResource}
use clusteradm.Info.Components.{crd_names, state_of, is_existing}

module _ (crds : List Crd) where
  -- The state of a name
  abbrev pub crd_state : Bytes → Bytes
  crd_state name = state_of (is_existing crds name)

-- A resource names the CRD.
abbrev pub IsNamed : List RelatedResource → Bytes → Type 0
IsNamed resources name =
    (r : RelatedResource) × In r resources
    × (r.resource ≡ bytes "customresourcedefinitions")
    × (r.name ≡ name)

-- The list has a CRD of the name.
abbrev pub IsListed : List Crd → Bytes → Type 0
IsListed crds name = (crd : Crd) × In crd crds × (crd.name ≡ name)

-- What is printed of a name: installed if the list has a CRD of the name, absent otherwise.
abbrev pub IsState : List Crd → Bytes → Bytes → Type 0
IsState crds name state =
    (IsListed crds name × (state ≡ bytes "installed"))
    ⊎ ((¬ (IsListed crds name)) × (state ≡ bytes "absent"))

pub In-crd_names :
    (resources : List RelatedResource) (name : Bytes)
    → In name (crd_names resources)
    → IsNamed resources name
In-crd_names [] name i = elim i [ ]
In-crd_names (r ∷ resources) name i =
    elim (Bool-cases (bytes_eq r.resource (bytes "customresourcedefinitions"))) [
      | inl same ↦
          let i' : (name ≡ r.name) ⊎ In name (crd_names resources) = rw same at i in
          elim i' [
            | inl e ↦ (r, inl refl, bytes_eq_sound _ _ same, sym e)
            | inr later ↦
                let (r', there, kind, e) = In-crd_names resources name later in
                (r', inr there, kind, e)
          ]
      | inr other ↦
          let i' : In name (crd_names resources) = rw other at i in
          let (r', there, kind, e) = In-crd_names resources name i' in (r', inr there, kind, e)
    ]

pub crd_names-In :
    (resources : List RelatedResource) (name : Bytes)
    → IsNamed resources name
    → In name (crd_names resources)
crd_names-In [] name (r, i, kind, e) = elim i [ ]
crd_names-In (r ∷ resources) name (r', inl here, kind, e) =
    let same : bytes_eq r.resource (bytes "customresourcedefinitions") ≡ true =
      subst (λ k. bytes_eq k (bytes "customresourcedefinitions") ≡ true)
        (sym kind ∙ ap (λ x. x.resource) here) refl in
    rw same (inl (sym e ∙ ap (λ x. x.name) here))
crd_names-In (r ∷ resources) name (r', inr there, kind, e) =
    let later = crd_names-In resources name (r', there, kind, e) in
    elim (Bool-cases (bytes_eq r.resource (bytes "customresourcedefinitions"))) [
      | inl same ↦ rw same (inr later)
      | inr other ↦ rw other later
    ]

is_existing-IsListed :
    (crds : List Crd) (name : Bytes) → is_existing crds name ≡ true → IsListed crds name
is_existing-IsListed [] name h = absurd (cc)
is_existing-IsListed (crd ∷ crds) name h = elim (Bool-cases (bytes_eq crd.name name)) [
  | inl same ↦ (crd, inl refl, bytes_eq_sound crd.name name same)
  | inr other ↦
      let h' : is_existing crds name ≡ true = rw other at h in
      let (crd', there, e) = is_existing-IsListed crds name h' in (crd', inr there, e)
]

IsListed-is_existing :
    (crds : List Crd) (name : Bytes) → IsListed crds name → is_existing crds name ≡ true
IsListed-is_existing [] name (crd, i, e) = elim i [ ]
IsListed-is_existing (crd ∷ crds) name (crd', inl here, e) =
    let same : bytes_eq crd.name name ≡ true =
      subst (λ n. bytes_eq crd.name n ≡ true) (ap (λ x. x.name) (sym here) ∙ e)
        (bytes_eq_refl crd.name) in
    rw same refl
IsListed-is_existing (crd ∷ crds) name (crd', inr there, e) =
    let later = IsListed-is_existing crds name (crd', there, e) in
    elim (Bool-cases (bytes_eq crd.name name)) [
      | inl same ↦ rw same refl
      | inr other ↦ rw other later
    ]

pub crd_state-IsState : (crds : List Crd) (name : Bytes) → IsState crds name (crd_state crds name)
crd_state-IsState crds name = elim (Bool-cases (is_existing crds name)) [
  | inl there ↦ inl (is_existing-IsListed crds name there, ap state_of there)
  | inr none ↦
      inr (
        λ listed. let there = IsListed-is_existing crds name listed in absurd (cc),
        ap state_of none,
      )
]

pub IsState-unique :
    (crds : List Crd) (name state : Bytes) → IsState crds name state → state ≡ crd_state crds name
IsState-unique crds name state (inl (listed, e)) =
    e ∙ ap state_of (sym (IsListed-is_existing crds name listed))
IsState-unique crds name state (inr (none, e)) = elim (Bool-cases (is_existing crds name)) [
  | inl there ↦ absurd (none (is_existing-IsListed crds name there))
  | inr missing ↦ e ∙ ap state_of (sym missing)
]
