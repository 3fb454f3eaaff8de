-- ===== src/Removal/Clean.antt =====
-- pkg/cmd/clean/exec.go.
pub mod Laws
use clusteradm.Base.{
  Bool, true, false, String, ◌<>◌, Option, none, some, List, [], ◌∷◌, ◌++◌, if◌then◌else◌,
}
use clusteradm.Effect.{
  Result, ok, err, Trace, Prog, Server, pure, fail, say, call, ◌>>=◌, ◌>>◌, attempt,
}
use clusteradm.Errors.{Errors}
use clusteradm.Removal.{
  Object, cluster_role, cluster_role_binding, secret, service_account, deployment, crd, namespace,
  cluster_manager, Call, Answer, delete, get, get_crd, Run, delete_all, check_gone,
}

pub record Options : Type 0 where
  pub cluster_manager_name : String
  pub purge_operator : Bool
  pub token_id : String

-- The objects of `removeBootStrapSecret`.
abbrev pub bootstrap_objects : String → List Object
bootstrap_objects token_id =
    (record {
      kind = cluster_role;
      namespace = "";
      name = "system:open-cluster-management:bootstrap";
    })
    ∷ (record { kind = cluster_role_binding; namespace = ""; name = "cluster-bootstrap" })
    ∷ (record { kind = secret; namespace = "kube-system"; name = "bootstrap-token-" <> token_id })
    ∷ (record { kind = cluster_role_binding; namespace = ""; name = "cluster-bootstrap-sa" })
    ∷ (record {
      kind = service_account;
      namespace = "open-cluster-management";
      name = "cluster-bootstrap";
    })
    ∷ []

-- The objects of `puregeOperator`.
abbrev pub operator_objects : List Object
operator_objects =
    (record { kind = deployment; namespace = "open-cluster-management"; name = "cluster-manager" })
    ∷ (record {
      kind = crd;
      namespace = "";
      name = "clustermanagers.operator.open-cluster-management.io";
    })
    ∷ (record { kind = cluster_role; namespace = ""; name = "cluster-manager" })
    ∷ (record { kind = cluster_role_binding; namespace = ""; name = "cluster-manager" })
    ∷ (record {
      kind = service_account;
      namespace = "open-cluster-management";
      name = "cluster-manager";
    })
    ∷ (record { kind = namespace; namespace = ""; name = "open-cluster-management" })
    ∷ []

abbrev pub manager_object : Options → Object
manager_object o = record { kind = cluster_manager; namespace = ""; name = o.cluster_manager_name }

module _ (X : Errors) (server : Server Call Answer X.Error) where
  open X use {Error, errorf, is_not_found}

  unfoldable pub validate_installed : Result Error (Unit {0}) → Run X server (Unit {0})
  validate_installed (ok _) = pure tt
  validate_installed (err e) =
      if is_not_found e then fail (errorf "hub has not been initialized") else fail e

  -- `Validate`
  unfoldable pub validate : Run X server (Unit {0})
  validate = do
    r ← attempt (call server (get_crd "clustermanagers.operator.open-cluster-management.io"))
    validate_installed r

  -- `retry.OnError` with the backoff of the command is a parameter.
  module _ (on_error : Prog Call Error (Unit {0}) → Prog Call Error (Unit {0})) where
    -- What follows the deletion of the cluster manager: an error other than NotFound is not looked at.
    unfoldable pub wait_and_purge : Options → Run X server (Unit {0})
    wait_and_purge o = do
      on_error (check_gone X server (manager_object o) "cluster manager still exists")
      if o.purge_operator then delete_all X server operator_objects else pure tt
      say "The multicluster hub control plane has been clean up successfully!\n"

    unfoldable pub after_delete : Options → Result Error (Unit {0}) → Run X server (Unit {0})
    after_delete o (ok _) = wait_and_purge o
    after_delete o (err e) =
        if is_not_found e
        then say "The multicluster hub control plane is cleand up already\n"
        else wait_and_purge o

    -- `Run`
    unfoldable pub run : Options → Run X server (Unit {0})
    run o = do
      delete_all X server (bootstrap_objects o.token_id)
      r ← attempt (call server (delete (manager_object o)))
      after_delete o r
