-- ===== src/Accept.antt =====
-- pkg/cmd/accept/exec.go: the approval of the signing requests of managed clusters on the hub.
pub mod Approve
pub mod Run
pub mod Requesters
pub mod Clusters
mod Tests
use clusteradm.Base.{
  ℕ, Bool, true, false, ◌&&◌, ◌||◌, not, String, ◌<>◌, Option, none, some, List, [], ◌∷◌, ◌++◌, map,
  text_eq, starts_with, split, trim_space, contains, select, if◌then◌else◌,
}
use clusteradm.Effect.{
  Result, ok, err, Event, Trace, Prog, Server, pure, fail, say, call, ◌>>=◌, ◌>>◌, attempt,
  return_error,
}
use clusteradm.Errors.{Errors}

-- A condition of a CertificateSigningRequest.
pub record Condition : Type 0 where
  pub status : String
  pub kind : String
  pub reason : String
  pub message : String
  pub last_update_time : ℕ

-- The fields of a CertificateSigningRequest that the command reads or writes.
pub record Csr : Type 0 where
  pub name : String
  pub username : String
  pub groups : List String
  pub conditions : List Condition

pub record ManagedCluster : Type 0 where
  pub name : String
  pub hub_accepts_client : Bool

-- The calls to the hub's API server. A list of signing requests is asked for by a label selector.
pub data Call : Type 0 where
  list_csrs : String → Call
  update_approval : Csr → Call
  get_managed_cluster : String → Call
  patch_managed_cluster : String → String → Call

abbrev pub Answer : Call → Type 0
Answer (list_csrs selector) = List Csr
Answer (update_approval csr) = Unit {0}
Answer (get_managed_cluster name) = ManagedCluster
Answer (patch_managed_cluster name patch) = Unit {0}

pub record Options : Type 0 where
  pub clusters : String
  pub wait : Bool
  pub skip_approve_check : Bool
  pub dry_run : Bool
  pub values_clusters : List String

abbrev pub group_name_bootstrap : String
group_name_bootstrap = "system:bootstrappers:managedcluster"

abbrev pub user_name_signature_bootstrap_prefix : String
user_name_signature_bootstrap_prefix = "system:bootstrap:"

abbrev pub user_name_signature_sa : String
user_name_signature_sa = "system:serviceaccount:open-cluster-management:cluster-bootstrap"

abbrev pub group_name_sa : String
group_name_sa = "system:serviceaccounts:open-cluster-management"

abbrev pub cluster_label : String
cluster_label = "open-cluster-management.io/cluster-name"

-- The loop of `complete`: a piece that was seen before is dropped, and the others are trimmed.
unfoldable pub distinct_trimmed : List String → List String → List String
distinct_trimmed seen [] = []
distinct_trimmed seen (c ∷ cs) =
    let again = distinct_trimmed seen cs in
    let fresh = trim_space c ∷ distinct_trimmed (c ∷ seen) cs in
    if contains seen c then again else fresh

-- `GetCertApprovalCondition`: approved and denied
unfoldable pub cert_approval_condition : List Condition → Bool × Bool → Bool × Bool
cert_approval_condition [] r = r
cert_approval_condition (c ∷ cs) (approved, denied) = cert_approval_condition cs (
  (if text_eq c.kind "Approved" then true else approved),
  (if text_eq c.kind "Denied" then true else denied),
)

abbrev pub is_approved : Csr → Bool
is_approved csr = (cert_approval_condition csr.conditions (false, false)).0

abbrev pub is_denied : Csr → Bool
is_denied csr = (cert_approval_condition csr.conditions (false, false)).1

-- The requester has the right name and one of the right groups.
unfoldable pub correct_requester : Csr → Bool
correct_requester csr =
    if not (starts_with csr.username user_name_signature_bootstrap_prefix)
      && not (starts_with csr.username user_name_signature_sa)
    then false
    else if not (contains csr.groups group_name_bootstrap)
        && not (contains csr.groups group_name_sa)
    then false
    else true

-- The first loop of `approveCSR`.
unfoldable pub passed_csrs : Bool → List Csr → List Csr
unfolding correct_requester select
passed_csrs skip items = if skip then items else select correct_requester items

-- `GetExampleHeader` of pkg/helpers/cmd.go, from `os.Args[0]`
unfoldable pub get_example_header : String → String
get_example_header arg =
    if text_eq arg "oc" then "oc cm" else if text_eq arg "kubectl" then "kubectl cm" else arg

-- The condition that an approval appends.
unfoldable pub with_approval : String → ℕ → Csr → Csr
unfolding get_example_header
with_approval arg now csr = record csr {
  conditions =
      csr.conditions
      ++ (record {
        status = "True";
        kind = "Approved";
        reason = get_example_header arg <> " Approve";
        message = "This CSR was approved by " <> get_example_header arg <> " certificate approve.";
        last_update_time = now;
      }
          ∷ []);
}

module _ (X : Errors) where
  open X use {Error, errorf, text, is_not_found, new_aggregate}

  -- `complete`
  unfoldable pub complete : Options → Result Error Options
  unfolding distinct_trimmed
  complete o =
      if text_eq o.clusters ""
      then err (errorf "values or name are missing")
      else ok (record o { values_clusters = distinct_trimmed [] (split b',' o.clusters) })
