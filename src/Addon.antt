-- ===== src/Addon.antt =====
-- The commands on add-ons: what pkg/cmd/addon/enable/exec.go and pkg/cmd/addon/disable/exec.go share.
pub mod Found
pub mod Disable
pub mod Enable
mod Tests
use clusteradm.Base.{◌≡◌, ◌↔◌, Bool, String, List, [], ◌∷◌, In}
use clusteradm.Effect.{Trace, Prog, Server, pure, call, ◌>>=◌, ◌>>◌}
use clusteradm.Errors.{Errors}
use clusteradm.Hub.{Call, Answer, get_cluster, Run}

-- `sets.NewString(xs...).List()` of k8s.io/apimachinery is a parameter: it has the same elements.
pub record IsSorter (to_set : List String → List String) : Type 0 where
  pub same : (x : String) (xs : List String) → In x (to_set xs) ↔ In x xs

module _ (X : Errors) (server : Server Call Answer X.Error) where
  -- The loop that reads each cluster before anything is changed.
  unfoldable pub get_clusters : List String → Run X server (Unit {0})
  get_clusters [] = pure tt
  get_clusters (name ∷ names) = do call server (get_cluster name); get_clusters names
