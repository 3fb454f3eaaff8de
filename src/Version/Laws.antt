-- ===== src/Version/Laws.antt =====
-- Which versions `GetVersionBundle` knows.
use clusteradm.Base.{
  ◌≡◌, refl, ◌↔◌, inl, inr, true, false, String, none, List, [], ◌∷◌, text_eq, arith, Bool-cases,
  Option-cases, contains,
}
use clusteradm.Effect.{ok}
use clusteradm.Errors.{Errors}
use clusteradm.Version.{
  VersionBundle, predefined, bundle_of, version_bundle, trim_v, get_version_bundle,
}

-- The releases that have a bundle, and two names.
abbrev pub known_versions : List String
known_versions =
    "default" ∷ "latest" ∷ "0.5.0" ∷ "0.6.0" ∷ "0.7.0" ∷ "0.8.0" ∷ "0.9.0" ∷ "0.9.1" ∷ []

abbrev keys : List (String × VersionBundle) → List String
keys [] = []
keys ((key, bundle) ∷ more) = key ∷ keys more

bundle_of-none :
    (version : String) (table : List (String × VersionBundle))
    → (bundle_of version table ≡ none) ↔ (contains (keys table) version ≡ false)
bundle_of-none version [] = ((λ _. refl), (λ _. refl))
bundle_of-none version ((key, bundle) ∷ more) =
    let rest = bundle_of-none version more in (ground (arith, rest.0), ground (arith, rest.1))

version_bundle-none :
    (version : String) → (version_bundle version ≡ none) ↔ (contains known_versions version ≡ false)
unfolding version_bundle
version_bundle-none version = elim (Bool-cases (text_eq "default" version)) [
  | inl same ↦ rw same ((λ h. absurd (cc)), (λ h. absurd (cc)))
  | inr differ ↦ rw differ (bundle_of-none version predefined)
]

module _ (X : Errors) where
  -- `GetVersionBundle` answers a bundle for the known versions only, with a `v` in front or not, and an
  -- error for any other.
  get_version_bundle_known :
      (version : String)
      → ((bundle : VersionBundle) × (get_version_bundle X version ≡ ok bundle))
        ↔ (contains known_versions (trim_v version) ≡ true)
  unfolding get_version_bundle
  get_version_bundle_known version =
      let known = version_bundle-none (trim_v version) in
      elim (Option-cases (version_bundle (trim_v version))) [
        | inl missing ↦
            rw missing ((λ x. absurd (cc (x.1))), (λ h. absurd (cc (h, known.0 missing))))
        | inr (bundle, found) ↦ rw found ((λ x. ground (arith, known.1)), (λ h. (bundle, refl)))
      ]
