-- ===== src/Info.antt =====
-- What `get hub-info` and `get klusterlet-info` share: the writer of pkg/helpers/printer/prefixwriter.go,
-- the objects that are read, and the calls.
pub mod Components
pub mod Deploys
pub mod HubInfo
pub mod KlusterletInfo
pub mod Crds
pub mod Laws
mod Tests
use Prim.Native.Nat.{◌/◌, ◌%◌}
use clusteradm.Base.{ℕ, zero, suc, ◌+◌, Bytes, bytes, Bool, List, [], ◌∷◌, ◌++◌, ltb, if◌then◌else◌}
use clusteradm.Effect.{Prog, Server, pure, call, attempt, ◌>>◌}
use clusteradm.Errors.{Errors}

-- A deployment: its replicas, those that are available, and its containers with their names and images.
pub record Deployment : Type 0 where
  pub replicas : ℕ
  pub available : ℕ
  pub containers : List (Bytes × Bytes)

-- A version of a CRD: whether it is served and whether it is the stored one.
pub record CrdVersion : Type 0 where
  pub name : Bytes
  pub served : Bool
  pub storage : Bool

pub record Crd : Type 0 where
  pub name : Bytes
  pub stored_versions : List Bytes
  pub versions : List CrdVersion

-- operatorv1.RelatedResourceMeta, the fields that are read.
pub record RelatedResource : Type 0 where
  pub resource : Bytes
  pub name : Bytes
  pub namespace : Bytes

pub record KlusterletCondition : Type 0 where
  pub kind : Bytes
  pub status : Bytes
  pub last_transition_time : Bytes
  pub reason : Bytes
  pub message : Bytes

pub record Klusterlet : Type 0 where
  pub conditions : List KlusterletCondition
  pub related_resources : List RelatedResource

-- A field selector is empty for all CRDs.
pub data Call : Type 0 where
  get_deployment : Bytes → Bytes → Call
  list_crds : Bytes → Call
  get_crd : Bytes → Call
  get_cluster_manager : Bytes → Call
  get_klusterlet : Bytes → Call
  write_out : Bytes → Call

abbrev pub Answer : Call → Type 0
Answer (get_deployment namespace name) = Deployment
Answer (list_crds field_selector) = List Crd
Answer (get_crd name) = Unit {0}
Answer (get_cluster_manager name) = List RelatedResource
Answer (get_klusterlet name) = Klusterlet
Answer (write_out text) = Unit {0}

-- The verb %d of fmt, for a number that is not negative.
abbrev digits : ℕ → ℕ → Bytes → Bytes
digits zero n rest = rest
digits (suc fuel) n rest =
    let one = (b'0' + n % 10) ∷ rest in
    let more = digits fuel (n / 10) one in if ltb n 10 then one else more

-- A number has no more digits than it is large, or one.
abbrev pub decimal : ℕ → Bytes
decimal n = digits (suc n) n []

-- The prefix of a level, two spaces each.
abbrev pub prefix : ℕ → Bytes
prefix zero = []
prefix (suc level) = prefix level ++ bytes "  "

module _ (X : Errors) (server : Server Call Answer X.Error) where
  -- `prefixWriter.Write` of a formatted text; the error of the writer is not used.
  unfoldable pub write : ℕ → Bytes → Prog Call X.Error (Unit {0})
  write level text = attempt (call server (write_out (prefix level ++ text))) >> pure tt
