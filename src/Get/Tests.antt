-- ===== src/Get/Tests.antt =====
-- Two cluster sets with three bindings, and two placements with three decisions.
use clusteradm.Base.{refl, Bytes, bytes, bytes_eq, Option, none, some, List, [], ◌∷◌, if◌then◌else◌}
use clusteradm.Effect.{ok, Server}
use clusteradm.Errors.{Status, status_errors}
use clusteradm.Printer.TreePrinter.{TreePrinter, new_tree_printer}
use clusteradm.Printer.TreePrinter.Refines.{new_trie-Refines}
use clusteradm.Get.{Value, Condition, Tools, text}
use clusteradm.Get.Shown.{VisitsAll}
use clusteradm.Get.Clusterset
use clusteradm.Get.Clusterset.{ManagedClusterSet, list_cluster_sets, list_bindings}
use clusteradm.Get.Clusterset.Laws as ClustersetLaws
use clusteradm.Get.Clusterset.Laws.{set_converters-Shows}
use clusteradm.Get.Placement
use clusteradm.Get.Placement.{
  Placement, PlacementDecision, get_namespace, list_placements, list_decisions,
}
use clusteradm.Get.Placement.Laws as PlacementLaws
use clusteradm.Get.Placement.Laws.{placement_converters-Shows}

abbrev find : List Condition → Bytes → Option Condition
find [] kind = none
find (c ∷ cs) kind = let rest = find cs kind in if bytes_eq c.kind kind then some c else rest

abbrev tools : Tools
tools = record {
  find_status_condition = find;
  print_value = λ v. elim v [ text s ↦ s | _ ↦ [] ];
  red = λ s. s;
  visit = λ mp. mp;
}

visits : VisitsAll tools.visit
visits mp x = (λ i. i, λ i. i)

abbrev empty_condition : Condition
empty_condition = record {
  kind = bytes "ClusterSetEmpty";
  status = bytes "False";
  reason = bytes "ClustersSelected";
  message = bytes "1 ManagedClusters selected";
}

abbrev sets : List ManagedClusterSet
sets =
    record { name = bytes "default"; conditions = empty_condition ∷ [] }
    ∷ record { name = bytes "dev"; conditions = [] }
    ∷ []

abbrev hub : Server Clusterset.Call Clusterset.Answer Status
hub h list_cluster_sets = ok sets
hub h list_bindings = ok (
    record { namespace = bytes "ns1"; cluster_set = bytes "default" }
    ∷ record { namespace = bytes "ns2"; cluster_set = bytes "other" }
    ∷ record { namespace = bytes "ns3"; cluster_set = bytes "default" }
    ∷ [])
hub h (Clusterset.Call.print_table t) = ok tt
hub h (Clusterset.Call.print_yaml set) = ok tt

abbrev printer : TreePrinter Value
printer = new_tree_printer (bytes "ManagedClusterSet")

set_converters-Shows_example :
    ClustersetLaws.Shows status_errors tools hub sets printer [] (hub [] list_bindings)
set_converters-Shows_example =
    set_converters-Shows status_errors tools hub visits sets printer (λ j. none) [] new_trie-Refines
      (refl, ((refl, refl), tt), (refl, tt, tt))

abbrev placements : List Placement
placements =
    record {
      name = bytes "p1";
      namespace = bytes "ns1";
      cluster_sets = bytes "default" ∷ [];
      selected_count = 1;
      conditions = empty_condition ∷ [];
    }
    ∷ record {
      name = bytes "p2";
      namespace = bytes "ns1";
      cluster_sets = [];
      selected_count = 0;
      conditions = [];
    }
    ∷ []

abbrev decision : Bytes → List Bytes → PlacementDecision
decision placement clusters = record {
  labels = (bytes "cluster.open-cluster-management.io/placement", placement) ∷ [];
  clusters = clusters;
}

abbrev placement_hub : Server Placement.Call Placement.Answer Status
placement_hub h (get_namespace name) = ok tt
placement_hub h (list_placements namespace selector) = ok placements
placement_hub h (list_decisions namespace) = ok (
    decision (bytes "p1") (bytes "c1" ∷ [])
    ∷ decision (bytes "p3") []
    ∷ decision (bytes "p1") (bytes "c2" ∷ [])
    ∷ [])
placement_hub h (Placement.Call.print_table t) = ok tt
placement_hub h (Placement.Call.print_yaml p) = ok tt

placement_converters-Shows_example :
    PlacementLaws.Shows status_errors tools placement_hub
      (bytes "ns1")
      placements
      printer
      []
      (placement_hub [] (list_decisions (bytes "ns1")))
placement_converters-Shows_example =
    placement_converters-Shows status_errors tools placement_hub visits (bytes "ns1") placements
      printer (λ j. none) [] new_trie-Refines (refl, ((refl, refl), tt), (refl, tt, tt))
