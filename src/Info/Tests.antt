-- ===== src/Info/Tests.antt =====
-- A CRD with two versions, one stored, and one that is absent.
use clusteradm.Base.{◌≡◌, ◌↔◌, refl, Bytes, bytes, true, false, List, [], ◌∷◌, In}
use clusteradm.Effect.{ok, Event, Server}
use clusteradm.Errors.{Status, status_errors}
use clusteradm.Info.{
  Crd, RelatedResource, Call, Answer, get_deployment, list_crds, get_crd, get_cluster_manager,
  get_klusterlet, write_out, decimal,
}
use clusteradm.Info.Components.{Tools, print_crd}
use clusteradm.Info.Crds.{IsNamed, IsState}
use clusteradm.Info.Laws.{IsLawful, line_event, print_crd-In}

-- Enough for texts that are in order already.
abbrev tools : Tools
tools = record { set_list = λ xs. xs; visit = λ m. m }

tools-IsLawful : IsLawful tools
tools-IsLawful = (λ xs x. (λ i. i, λ i. i), λ m x. (λ i. i, λ i. i))

abbrev crds : List Crd
crds =
    record {
      name = bytes "works";
      stored_versions = bytes "v1" ∷ [];
      versions =
          record { name = bytes "v1"; served = true; storage = true }
          ∷ record { name = bytes "v1alpha1"; served = true; storage = false }
          ∷ [];
    }
    ∷ []

abbrev resource : Bytes → RelatedResource
resource name = record { resource = bytes "customresourcedefinitions"; name = name; namespace = [] }

abbrev hub : Server Call Answer Status
hub h (get_deployment namespace name) = ok (record { replicas = 3; available = 2; containers = [] })
hub h (list_crds selector) = ok crds
hub h (get_crd name) = ok tt
hub h (get_cluster_manager name) = ok []
hub h (get_klusterlet name) = ok (record { conditions = []; related_resources = [] })
hub h (write_out text) = ok tt

abbrev named : List RelatedResource
named = resource (bytes "works") ∷ resource (bytes "placements") ∷ []

print_crd-In_example :
    ((print_crd status_errors tools hub crds named []).0 ≡ ok tt)
    × ((e : Event Call)
        → In e (print_crd status_errors tools hub crds named []).1 ↔ (
            (name : Bytes) × (state : Bytes) × IsNamed named name
            × IsState crds name state
            × (e ≡ line_event status_errors tools hub crds name state)))
print_crd-In_example = print_crd-In status_errors tools hub tools-IsLawful crds named []

test_decimal : decimal 1203 ≡ bytes "1203"
test_decimal = refl
