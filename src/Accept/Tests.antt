-- ===== src/Accept/Tests.antt =====
-- A hub with signing requests of three kinds, and the theorems on `accept` at it.
use clusteradm.Base.{ℕ, ◌≡◌, refl, ◌↔◌, inl, inr, Bool, true, false, String, List, [], ◌∷◌, All, In}
use clusteradm.Effect.{ok, err, Trace, Prog, Server}
use clusteradm.Effect.Emits.{Emits}
use clusteradm.Errors.{Status, plain, not_found, status_errors, status_errors-IsLawful}
use clusteradm.Poll.{poll_rounds, poll_rounds-IsPoller}
use clusteradm.Accept.{
  Condition, Csr, Call, Answer, Options, list_csrs, update_approval, get_managed_cluster,
  patch_managed_cluster,
}
use clusteradm.Accept.Approve.{approve_csr}
use clusteradm.Accept.Approve.Justified.{Approves, approve_csr-Approves}
use clusteradm.Accept.Approve.Complete.{Requested, approve_csr-Requested}
use clusteradm.Accept.Requesters.{IsEligible}
use clusteradm.Accept.Run.{run_with_client}
use clusteradm.Accept.Run.DryRun.{IsRead, run_with_client-IsRead}
use clusteradm.Accept.Run.Outcome.{AllAccepted, run_with_client_succeeds}

abbrev decision : String → Condition
decision kind = record {
  status = "True";
  kind = kind;
  reason = "test";
  message = "";
  last_update_time = 1;
}

abbrev bootstrap_csr : String → List Condition → Csr
bootstrap_csr name conditions = record {
  name = name;
  username = "system:bootstrap:abcdef";
  groups = "system:authenticated" ∷ "system:bootstrappers:managedcluster" ∷ [];
  conditions = conditions;
}

abbrev waiting : Csr
waiting = bootstrap_csr "c1-b" []

abbrev items : List Csr
items =
    bootstrap_csr "c1-a" (decision "Denied" ∷ [])
    ∷ waiting
    ∷ bootstrap_csr "c1-c" (decision "Approved" ∷ [])
    ∷ (record waiting { name = "c1-d"; groups = "system:masters" ∷ [] })
    ∷ []

abbrev hub : Server Call Answer Status
hub h (list_csrs selector) = ok items
hub h (update_approval csr) = ok tt
hub h (get_managed_cluster name) = ok (record { name = name; hub_accepts_client = false })
hub h (patch_managed_cluster name patch) = ok tt

-- A hub that lists nothing.
abbrev down : Server Call Answer Status
down h (list_csrs selector) = err (plain "connection refused")
down h (update_approval csr) = ok tt
down h (get_managed_cluster name) = err (not_found name)
down h (patch_managed_cluster name patch) = ok tt

abbrev clock : Trace Call → ℕ
clock h = 7

abbrev options : Options
options = record {
  clusters = "c1,c2";
  wait = false;
  skip_approve_check = false;
  dry_run = false;
  values_clusters = "c1" ∷ "c2" ∷ [];
}

abbrev dry : Options
dry = record options { dry_run = true; wait = true }

abbrev poll : Prog Call Status Bool → Prog Call Status (Unit {0})
poll = poll_rounds 2 (plain "timed out waiting for the condition")

approve_csr-Approves_example :
    All
      (Approves status_errors "oc" clock hub (λ csr. In csr items × IsEligible false csr))
      (approve_csr status_errors "oc" clock hub options "c1" false []).1
approve_csr-Approves_example =
    approve_csr-Approves status_errors "oc" clock hub options "c1" false []

waiting-IsEligible : IsEligible false waiting
waiting-IsEligible = record { requester = inr (inl refl, inl refl); undecided = (refl, refl) }

approve_csr-Requested_example :
    Requested status_errors "oc" clock hub
      (approve_csr status_errors "oc" clock hub options "c1" false []).1
      waiting
approve_csr-Requested_example =
    approve_csr-Requested status_errors "oc" clock hub options "c1" false [] items waiting refl refl
      (inr (inl refl)) waiting-IsEligible

run_with_client-IsRead_example :
    Emits IsRead (run_with_client status_errors "oc" clock hub poll dry)
run_with_client-IsRead_example =
    run_with_client-IsRead status_errors "oc" clock hub dry refl poll
      (poll_rounds-IsPoller 2 (plain "timed out waiting for the condition"))

run_with_client_succeeds_example :
    ((run_with_client status_errors "oc" clock hub poll options []).0 ≡ ok tt)
    ↔ AllAccepted status_errors "oc" clock hub options ("c1" ∷ "c2" ∷ []) []
run_with_client_succeeds_example =
    run_with_client_succeeds status_errors "oc" clock hub poll options refl status_errors-IsLawful
      []
