-- ===== src/Info/Components.antt =====
-- pkg/helpers/printer/tree.go: the states of CRDs and deployments.
use clusteradm.Base.{
  Bytes, bytes, bytes_eq, Bool, true, false, none, some, List, [], ◌∷◌, ◌++◌, map, if◌then◌else◌,
}
use clusteradm.Effect.{Result, ok, err, Prog, Server, pure, fail, call, attempt, ◌>>=◌, ◌>>◌}
use clusteradm.Errors.{Errors}
use clusteradm.Get.{join}
use clusteradm.Get.GoMap.{value_at, put_at, slice_at}
use clusteradm.Info.{CrdVersion, Crd, RelatedResource, Call, Answer, list_crds, write}

-- k8s.io/apimachinery/pkg/util/sets, and the order in which `range` visits the map of the states.
pub record Tools : Type 0 where
  -- `sets.NewString(xs...).List()`: the texts in order, each once
  pub set_list : List Bytes → List Bytes
  pub visit : List (Bytes × Bytes) → List (Bytes × Bytes)

-- `crds` in the resources of an operator
abbrev pub crd_names : List RelatedResource → List Bytes
crd_names [] = []
crd_names (r ∷ resources) =
    let rest = crd_names resources in
    if bytes_eq r.resource (bytes "customresourcedefinitions") then r.name ∷ rest else rest

-- `servingVersions` and `crdStorageVersion[existingCRD.Name]` after the loop over the versions
abbrev pub served_versions : List CrdVersion → List Bytes
served_versions [] = []
served_versions (v ∷ versions) =
    let rest = served_versions versions in if v.served then v.name ∷ rest else rest

unfoldable pub store_versions :
    Bytes → List CrdVersion → List (Bytes × Bytes) → List (Bytes × Bytes)
unfolding put_at
store_versions crd [] m = m
store_versions crd (v ∷ versions) m =
    store_versions crd versions (if v.storage then put_at crd v.name m else m)

module _ (tools : Tools) where
  -- `crdVersions[existingCRD.Name]` after the loop over the versions, which assigns it each time
  abbrev pub versions_of : Crd → List Bytes
  versions_of crd = elim crd.versions [
    | [] ↦ crd.stored_versions
    | v ∷ versions ↦ tools.set_list (served_versions (v ∷ versions))
  ]

  -- `crdVersions` after the loop over the CRDs
  unfoldable pub all_versions : List Crd → List (Bytes × List Bytes) → List (Bytes × List Bytes)
  unfolding put_at
  all_versions [] m = m
  all_versions (crd ∷ crds) m = all_versions crds (put_at crd.name (versions_of crd) m)

-- `crdStorageVersion` after the loop over the CRDs
unfoldable pub all_storage : List Crd → List (Bytes × Bytes) → List (Bytes × Bytes)
unfolding store_versions
all_storage [] m = m
all_storage (crd ∷ crds) m = all_storage crds (store_versions crd.name crd.versions m)

-- `existingCRDNames.Has(name)`
abbrev pub is_existing : List Crd → Bytes → Bool
is_existing [] name = false
is_existing (crd ∷ crds) name =
    let rest = is_existing crds name in if bytes_eq crd.name name then true else rest

abbrev pub state_of : Bool → Bytes
state_of true = bytes "installed"
state_of false = bytes "absent"

-- `statuses` after the loop over the names
unfoldable pub all_states : List Crd → List Bytes → List (Bytes × Bytes) → List (Bytes × Bytes)
unfolding put_at
all_states crds [] m = m
all_states crds (name ∷ names) m =
    all_states crds names (put_at name (state_of (is_existing crds name)) m)

-- The version with a star in front if it is the stored one
abbrev pub starred : Bytes → Bytes → Bytes
starred storage v = if bytes_eq v storage then b'*' ∷ v else v

abbrev pub text_at : Bytes → List (Bytes × Bytes) → Bytes
text_at k m = elim (value_at k m) [ none ↦ [] | some v ↦ v ]

module _ (tools : Tools) where
  -- `formatCRDVersion`
  abbrev pub format_crd_version : List (Bytes × List Bytes) → List (Bytes × Bytes) → Bytes → Bytes
  format_crd_version serving storage name =
      join (bytes "|")
        (tools.set_list (map (starred (text_at name storage)) (slice_at name serving)))

  -- The line of one CRD
  abbrev pub crd_line : Bytes → Bytes → Bytes → Bytes
  crd_line state name versions =
      b'(' ∷ (state ++ bytes ") " ++ name ++ bytes " [" ++ versions ++ bytes "]\n")

module _ (X : Errors) (tools : Tools) (server : Server Call Answer X.Error) where
  -- The loop that prints the states
  unfoldable pub print_states :
      List (Bytes × List Bytes)
      → List (Bytes × Bytes)
      → List (Bytes × Bytes)
      → Prog Call X.Error (Unit {0})
  unfolding write
  print_states serving storage [] = pure tt
  print_states serving storage ((name, state) ∷ states) =
      write X server 2 (crd_line tools state name (format_crd_version tools serving storage name))
      >> print_states serving storage states

  -- `printCRD`
  unfoldable pub print_crd : List Crd → List RelatedResource → Prog Call X.Error (Unit {0})
  unfolding all_versions all_storage all_states print_states
  print_crd crds resources =
      print_states (all_versions tools crds []) (all_storage crds [])
        (tools.visit (all_states crds (tools.set_list (crd_names resources)) []))

  -- What `PrintOperatorCRD` goes on with: the list that the client answers with a NotFound is empty.
  unfoldable pub crds_or_none : Result X.Error (List Crd) → Prog Call X.Error (List Crd)
  crds_or_none (ok crds) = pure crds
  crds_or_none (err e) = if X.is_not_found e then pure [] else fail e

  -- `PrintOperatorCRD`
  unfoldable pub print_operator_crd : Bytes → Prog Call X.Error (Unit {0})
  unfolding crds_or_none print_crd
  print_operator_crd name =
      attempt (call server (list_crds (bytes "metadata.name=" ++ name)))
      >>= crds_or_none
      >>= λ crds. print_crd crds (
          record { resource = bytes "customresourcedefinitions"; name = name; namespace = [] } ∷ [])

  -- `PrintComponentsCRD`
  unfoldable pub print_components_crd : List RelatedResource → Prog Call X.Error (Unit {0})
  unfolding print_crd
  print_components_crd resources = call server (list_crds []) >>= λ crds. print_crd crds resources
