-- ===== src/HubAddon/Names.antt =====
-- The names that `validate` accepts, and those that `run` goes over.
use clusteradm.Base.{
  ◌≡◌, refl, sym, ◌∙◌, ◌⊎◌, inl, inr, String, List, [], ◌∷◌, In, All, split, trim_space, text_eq,
  eq_iff, Bool-cases, of_All, All-of_In, subst, arith,
}
use clusteradm.Effect.{ok}
use clusteradm.Errors.{Errors}
use clusteradm.Accept.Clusters.{
  AreDistinct, distinct_trimmed_complete, distinct_trimmed_sound, distinct_trimmed-AreDistinct,
}
use clusteradm.HubAddon.{
  Options, app_mgr_addon_name, policy_framework_addon_name, check_names, check_split, hub_addons,
}

-- A built-in add-on.
abbrev pub IsBuiltIn : String → Type 0
IsBuiltIn name = (name ≡ app_mgr_addon_name) ⊎ (name ≡ policy_framework_addon_name)

check_names-IsBuiltIn :
    (X : Errors) (names : List String) → check_names X names ≡ ok tt → All IsBuiltIn names
unfolding check_names
check_names-IsBuiltIn X [] e = tt
check_names-IsBuiltIn X (n ∷ names) e = elim (Bool-cases (text_eq n app_mgr_addon_name)) [
  | inl app ↦
      (inl ((eq_iff n app_mgr_addon_name).0 app), check_names-IsBuiltIn X names (rw app at e))
  | inr no_app ↦ elim (Bool-cases (text_eq n policy_framework_addon_name)) [
    | inl policy ↦ (
      inr ((eq_iff n policy_framework_addon_name).0 policy),
      check_names-IsBuiltIn X names (rw (no_app, policy) at e),
    )
    | inr other ↦ absurd (ground (arith, e, no_app, other))
  ]
]

-- A built-in name has no space around it.
trim_built_in : (name : String) → IsBuiltIn name → trim_space name ≡ name
unfolding trim_space
trim_built_in name (inl e) = subst (λ n. trim_space n ≡ n) (sym e) refl
trim_built_in name (inr e) = subst (λ n. trim_space n ≡ n) (sym e) refl

check_split_names :
    (X : Errors) (o : Options) → check_split X o ≡ ok tt → All IsBuiltIn (split b',' o.names)
unfolding check_split
check_split_names X o e = elim (Bool-cases (text_eq o.names "")) [
  | inl empty ↦ absurd (ground (arith, e, empty))
  | inr named ↦ check_names-IsBuiltIn X _ (rw named at e)
]

-- The add-ons of names that `validate` accepts: built-in ones, each once, and just those that are named.
abbrev pub AreNamed : Options → List String → Type 0
AreNamed o addons =
    All IsBuiltIn addons
    × AreDistinct addons
    × ((n : String) → In n (split b',' o.names) → In n addons)
    × ((n : String) → In n addons → In n (split b',' o.names))

pub hub_addons-AreNamed :
    (X : Errors) (o : Options) → check_split X o ≡ ok tt → AreNamed o (hub_addons o)
unfolding hub_addons
hub_addons-AreNamed X o e =
    let built = check_split_names X o e in
    let clean =
      λ (q : String) (i : In q pieces). trim_built_in q (of_All IsBuiltIn q pieces built i) in
    let comes = λ (n : String) (i : In n (hub_addons o)). named clean n i in
    (
      All-of_In IsBuiltIn (hub_addons o) (λ n i. of_All IsBuiltIn n pieces built (comes n i)),
      distinct_trimmed-AreDistinct [] pieces clean,
      (λ n i.
          subst (λ m. In m (hub_addons o)) (clean n i)
            (distinct_trimmed_complete [] pieces n i refl)),
      comes,
    )
  where
    pieces : List String
    pieces = split b',' o.names

    named :
        ((q : String) → In q pieces → trim_space q ≡ q)
        → (n : String) → In n (hub_addons o)
        → In n pieces
    named clean n i =
        let (p, k, same) = distinct_trimmed_sound [] pieces n i in
        subst (λ m. In m pieces) (sym (same ∙ clean p k)) k
