-- ===== src/Removal.antt =====
-- What `clean` and `unjoin` share: deletions that go on after an error, and the wait until a resource
-- is gone (pkg/cmd/clean/exec.go and pkg/cmd/unjoin/exec.go).
pub mod Objects
pub mod Gone
pub mod Clean
pub mod Unjoin
mod Tests
use clusteradm.Base.{
  Bool, true, false, String, ◌<>◌, Option, none, some, List, [], ◌∷◌, ◌++◌, map, if◌then◌else◌,
}
use clusteradm.Effect.{
  Result, ok, err, Trace, Prog, Server, pure, fail, call, ◌>>=◌, ◌>>◌, attempt, return_error,
}
use clusteradm.Errors.{Errors}

pub data Resource : Type 0 where
  cluster_role cluster_role_binding secret service_account deployment crd namespace : Resource
  cluster_manager klusterlet : Resource

-- An object to delete; the namespace is empty for one of the cluster.
pub record Object : Type 0 where
  pub kind : Resource
  pub namespace : String
  pub name : String

pub data Call : Type 0 where
  delete : Object → Call
  get : Object → Call
  get_crd : String → Call
  list_applied_works : Call

-- Of the applied works only the names are read.
abbrev pub Answer : Call → Type 0
Answer (delete object) = Unit {0}
Answer (get object) = Unit {0}
Answer (get_crd name) = Unit {0}
Answer list_applied_works = List String

module _ (X : Errors) (server : Server Call Answer X.Error) where
  open X use {Error, errorf, is_not_found, new_aggregate}

  abbrev pub Run : Type 0 → Type 0
  Run A = Prog Call Error A

  -- `if err != nil && !errors.IsNotFound(err) { errs = append(errs, err) }`
  unfoldable pub note_error : List Error → Result Error (Unit {0}) → List Error
  note_error errs (ok _) = errs
  note_error errs (err e) = if is_not_found e then errs else errs ++ (e ∷ [])

  -- The deletions, one after the other.
  unfoldable pub delete_each : List Object → List Error → Run (List Error)
  delete_each [] errs = pure errs
  delete_each (object ∷ objects) errs = do
    r ← attempt (call server (delete object))
    delete_each objects (note_error errs r)

  -- `removeBootStrapSecret` and `puregeOperator`, over their objects
  unfoldable pub delete_all : List Object → Run (Unit {0})
  delete_all objects = do
    errs ← delete_each objects []
    return_error (new_aggregate (map some errs))

  unfoldable pub gone : String → Result Error (Unit {0}) → Run (Unit {0})
  gone message (ok _) = fail (errorf message)
  gone message (err e) = if is_not_found e then pure tt else fail e

  -- The function that `WaitResourceToBeDelete` runs again and again.
  unfoldable pub check_gone : Object → String → Run (Unit {0})
  check_gone object message = do r ← attempt (call server (get object)); gone message r
