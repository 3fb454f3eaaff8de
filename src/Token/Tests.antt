-- ===== src/Token/Tests.antt =====
-- A hub without the bootstrap's service account, and one that has it.
use clusteradm.Base.{◌≡◌, refl, true, false, [], ◌∷◌}
use clusteradm.Effect.{ok, err, Trace, Server, ◌>>◌, attempt, call, pure}
use clusteradm.Effect.Calls.{outcome}
use clusteradm.Effect.Emits.{Emits}
use clusteradm.Errors.{Status, plain, not_found, status_errors, status_errors-IsLawful}
use clusteradm.Token.{
  Secret, Call, Answer, server_resources, get_crd, list_secrets, create_token, apply_directly,
  rest_config, write_json, write_output, delete_cluster_role_binding, delete_cluster_role,
  delete_secret, delete_service_account,
}
use clusteradm.Token.Lookup.{get_token, get_bootstrap_secret, the_secret, last_if_any}
use clusteradm.Token.Lookup.Laws.{get_bootstrap_secret_last, get_token-outcome}
use clusteradm.Token.Get
use clusteradm.Token.Get.Emitted.{Applies, IsApplied}
use clusteradm.Token.Get.Applied.{applied}
use clusteradm.Token.Get.Laws.{InOrder, run-Applies}
use clusteradm.Token.Delete
use clusteradm.Token.Delete.{
  delete_token, unless_missing, tolerate, delete_found, delete_bootstrap_secret,
}
use clusteradm.Token.Delete.Laws.{Deletes, run-Deletes}

abbrev token_secret : Secret
token_secret = record {
  name = "bootstrap-token-abcdef";
  namespace = "kube-system";
  token_id = "abcdef";
  token_secret = "0123456789abcdef";
}

abbrev other_secret : Secret
other_secret = record {
  name = "pull-secret";
  namespace = "kube-system";
  token_id = "";
  token_secret = "";
}

abbrev hub : Server Call Answer Status
hub h server_resources = ok ("managedclusters" ∷ [])
hub h (get_crd name) = ok tt
hub h (list_secrets namespace selector) = ok (token_secret ∷ other_secret ∷ [])
hub h (create_token namespace name) = err (not_found name)
hub h (apply_directly dry_run files) = ok files
hub h rest_config = ok "https://hub:6443"
hub h (write_json token host) = ok tt
hub h (write_output file output) = ok tt
hub h (delete_cluster_role_binding name) = err (not_found name)
hub h (delete_cluster_role name) = ok tt
hub h (delete_secret namespace name) = ok tt
hub h (delete_service_account namespace name) = err (not_found name)

abbrev options : Get.Options
options = record { dry_run = false; use_bootstrap_token = false; output = "text"; output_file = "" }

-- The secret that is found is not the bootstrap token's.
get_bootstrap_secret_last_example : (get_bootstrap_secret status_errors hub []).0 ≡ ok other_secret
get_bootstrap_secret_last_example = get_bootstrap_secret_last status_errors hub []

-- There is a bootstrap token and no account, and still no token is answered.
get_token-outcome_example : outcome (get_token status_errors hub []) ≡ (
  err (
      plain
        "failed to get token from sa open-cluster-management/cluster-bootstrap: cluster-bootstrap"),
  create_token "open-cluster-management" "cluster-bootstrap" ∷ [],
)
get_token-outcome_example = get_token-outcome status_errors hub status_errors-IsLawful []

run-Applies_example :
    Emits (Applies false (IsApplied options)) (Get.run status_errors "oc" hub options)
    × ((h : Trace Call)
        → (Get.run status_errors "oc" hub options h).0 ≡ ok tt
        → InOrder status_errors "oc" hub options
            (applied (Get.run status_errors "oc" hub options h).1))
run-Applies_example = run-Applies status_errors "oc" hub status_errors-IsLawful options

run-Deletes_example : Emits (Deletes status_errors hub true) (Delete.run status_errors hub true)
run-Deletes_example = run-Deletes status_errors hub true

deleted : (Delete.run status_errors hub false []).0 ≡ ok tt
unfolding Delete.run delete_token ◌>>◌ unless_missing attempt tolerate call pure
    delete_bootstrap_secret delete_found get_bootstrap_secret the_secret last_if_any
deleted = refl
