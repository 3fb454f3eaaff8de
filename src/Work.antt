-- ===== src/Work.antt =====
-- The commands on manifest works: pkg/cmd/create/work/exec.go and pkg/cmd/delete/work/exec.go.
pub mod Create
pub mod Delete
mod Tests
use clusteradm.Base.{Bool, String, List, [], ◌∷◌}
use clusteradm.Hub.{WatchEvent}

-- The fields of a ManifestWork that the commands read or write; its namespace is its cluster.
pub record Work : Type 0 where
  pub name : String
  pub namespace : String
  pub finalizers : List String
  pub manifests : List String

-- An event of a watch, with the name of its work.
pub record WorkEvent : Type 0 where
  pub kind : WatchEvent
  pub name : String

-- The calls to the hub, and those that read the manifests' files and follow a placement's decisions
-- (the added clusters and the deleted ones).
pub data Call : Type 0 where
  read_manifests : Call
  list_works : Call
  get_placement : String → String → Call
  track_placement : String → String → List String → Call
  get_work : String → String → Call
  create_work : Work → Call
  update_work : Work → Call
  delete_work : String → String → Call
  watch_works : String → Call

abbrev pub Answer : Call → Type 0
Answer read_manifests = List String
Answer list_works = List Work
Answer (get_placement namespace name) = Unit {0}
Answer (track_placement namespace name existing) = List String × List String
Answer (get_work cluster name) = Work
Answer (create_work work) = Unit {0}
Answer (update_work work) = Unit {0}
Answer (delete_work cluster name) = Unit {0}
Answer (watch_works cluster) = List WorkEvent
