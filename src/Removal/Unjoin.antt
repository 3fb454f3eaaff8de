-- ===== src/Removal/Unjoin.antt =====
-- pkg/cmd/unjoin/exec.go.
pub mod Laws
use clusteradm.Base.{
  Bool, true, false, String, ◌<>◌, Option, none, some, List, [], ◌∷◌, ◌++◌, text_eq, if◌then◌else◌,
}
use clusteradm.Effect.{
  Result, ok, err, Trace, Prog, Server, pure, fail, say, call, ◌>>=◌, ◌>>◌, attempt,
}
use clusteradm.Errors.{Errors}
use clusteradm.Removal.{
  Object, cluster_role, cluster_role_binding, service_account, deployment, crd, klusterlet, Call,
  Answer, delete, get, list_applied_works, Run, delete_all, check_gone,
}

pub record Options : Type 0 where
  pub cluster_name : String
  pub purge_operator : Bool

-- The objects of `puregeOperator`.
abbrev pub operator_objects : List Object
operator_objects =
    (record { kind = deployment; namespace = "open-cluster-management"; name = "klusterlet" })
    ∷ (record {
      kind = crd;
      namespace = "";
      name = "klusterlets.operator.open-cluster-management.io";
    })
    ∷ (record { kind = cluster_role; namespace = ""; name = "klusterlet" })
    ∷ (record { kind = cluster_role_binding; namespace = ""; name = "klusterlet" })
    ∷ (record {
      kind = service_account;
      namespace = "open-cluster-management";
      name = "klusterlet";
    })
    ∷ []

abbrev pub klusterlet_object : Object
klusterlet_object = record { kind = klusterlet; namespace = ""; name = "klusterlet" }

module _ (X : Errors) (server : Server Call Answer X.Error) where
  open X use {Error, errorf, is_not_found}

  -- `validate`
  unfoldable pub validate : Options → Result Error (Unit {0})
  validate o = if text_eq o.cluster_name "" then err (errorf "name is missing") else ok tt

  -- `log.Fatal` ends the program: its error is the command's.
  unfoldable pub works_exist : Result Error (List String) → Run X server Bool
  works_exist (ok []) = pure false
  works_exist (ok (work ∷ works)) = pure true
  works_exist (err e) = if is_not_found e then pure false else fail e

  -- `IsAppliedManifestWorkExist`
  unfoldable pub is_applied_manifest_work_exist : Run X server Bool
  is_applied_manifest_work_exist = do r ← attempt (call server list_applied_works); works_exist r

  module _ (on_error : Prog Call Error (Unit {0}) → Prog Call Error (Unit {0})) where
    unfoldable pub wait_and_purge : Options → Run X server (Unit {0})
    wait_and_purge o = do
      on_error (check_gone X server klusterlet_object "klusterlet still exists")
      if o.purge_operator then delete_all X server operator_objects else pure tt
      say (
          "Applied resources have been deleted during the " <> o.cluster_name
          <> " joined stage. The status of mcl " <> o.cluster_name
          <> " will be unknown in the hub cluster.\n")

    unfoldable pub after_delete : Options → Result Error (Unit {0}) → Run X server (Unit {0})
    after_delete o (ok _) = wait_and_purge o
    after_delete o (err e) =
        if is_not_found e then say "klusterlet is cleaned up already\n" else fail e

    unfoldable pub remove_klusterlet : Options → Run X server (Unit {0})
    remove_klusterlet o = do r ← attempt (call server (delete klusterlet_object)); after_delete o r

    unfoldable pub unless_works : Options → Bool → Run X server (Unit {0})
    unless_works o exist =
        if exist
        then fail (
            errorf
              "appliedManifestWork exist on the managed cluster, uninstalling the klusterlet will cause that the manifestworks on hub cannot be cleaned")
        else remove_klusterlet o

    -- `run`
    unfoldable pub run : Options → Run X server (Unit {0})
    run o = do
      say ("Remove applied resources in the managed cluster " <> o.cluster_name <> " ... \n")
      exist ← is_applied_manifest_work_exist
      unless_works o exist
