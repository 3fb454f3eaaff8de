-- ===== src/Clusterset/Create.antt =====
-- pkg/cmd/create/clusterset/exec.go.
use clusteradm.Base.{Bool, String, ◌<>◌, List, [], ◌∷◌, if◌then◌else◌}
use clusteradm.Effect.{Result, ok, err, Server, pure, fail, say, call, ◌>>=◌, ◌>>◌, attempt}
use clusteradm.Errors.{Errors}
use clusteradm.Hub.{Call, Answer, get_cluster_set, create_cluster_set, Run, check_for_hub}

module _ (X : Errors) (server : Server Call Answer X.Error) where
  open X use {Error, errorf}

  -- `Validate`, over the arguments that `complete` has kept
  unfoldable pub validate : List String → Run X server (Unit {0})
  validate clustersets = do
    check_for_hub X server
    elim clustersets [
      | [] ↦ fail (errorf "the name of the clusterset must be specified")
      | _ ∷ [] ↦ pure tt
      | _ ↦ fail (errorf "only one clusterset can be created")
    ]

  unfoldable pub created : Bool → String → Result Error (Unit {0}) → Run X server (Unit {0})
  created dry_run clusterset (ok _) = say ("Clusterset " <> clusterset <> " is already created\n")
  created dry_run clusterset (err e) =
      if dry_run then say ("Clusterset " <> clusterset <> " is created\n") else do
        call server (create_cluster_set clusterset)
        say ("Clusterset " <> clusterset <> " is created\n")

  -- `runWithClient`
  unfoldable pub create : Bool → String → Run X server (Unit {0})
  create dry_run clusterset = do
    r ← attempt (call server (get_cluster_set clusterset))
    created dry_run clusterset r
