-- ===== src/Get/Placement.antt =====
-- pkg/cmd/get/placement/exec.go: the placements with the clusters that they selected.
pub mod Laws
use clusteradm.Base.{
  Bytes, bytes, bytes_eq, ℕ, Bool, true, false, String, Option, none, some, List, [], ◌∷◌, ◌++◌,
  map, if◌then◌else◌,
}
use clusteradm.Effect.{Result, Prog, Server, pure, fail, call, ◌>>=◌, ◌>>◌}
use clusteradm.Errors.{Errors}
use clusteradm.Printer.TreePrinter.{Fields, Gotree, TreePrinter}
use clusteradm.Printer.PrinterOption
use clusteradm.Printer.PrinterOption.{
  Stop, returned, panicked, out_of_range, Table, PrinterOption, Converters, validate, print_list,
}
use clusteradm.Get.{
  Value, text, texts, number, Condition, Tools, get_values, stop_by, add_items, is_empty,
}
use clusteradm.Get.GoMap.{value_at, put_at, slice_at}

pub record Placement : Type 0 where
  pub name : Bytes
  pub namespace : Bytes
  pub cluster_sets : List Bytes
  pub selected_count : ℕ
  pub conditions : List Condition

-- A PlacementDecision: its labels, and the names of the clusters of its decisions.
pub record PlacementDecision : Type 0 where
  pub labels : List (Bytes × Bytes)
  pub clusters : List Bytes

-- The empty namespace stands for all, and an empty field selector for all placements.
pub data Call : Type 0 where
  get_namespace : Bytes → Call
  list_placements : Bytes → Bytes → Call
  list_decisions : Bytes → Call
  print_table : Table Value → Call
  print_yaml : Placement → Call

abbrev pub Answer : Call → Type 0
Answer (get_namespace name) = Unit {0}
Answer (list_placements namespace field_selector) = List Placement
Answer (list_decisions namespace) = List PlacementDecision
Answer (print_table table) = Unit {0}
Answer (print_yaml placement) = Unit {0}

pub record Options : Type 0 where
  pub placement_name : Bytes
  pub namespace : Bytes
  pub printer : PrinterOption Value

abbrev placement_label : Bytes
placement_label = bytes "cluster.open-cluster-management.io/placement"

-- `decision.ObjectMeta.Labels[placementLabel]`
abbrev pub placement_of : PlacementDecision → Bytes
placement_of d = elim (value_at placement_label d.labels) [ none ↦ [] | some name ↦ name ]

-- `selectedClusters` after the loop over the decisions
unfoldable pub save_decisions :
    List PlacementDecision → List (Bytes × List Bytes) → List (Bytes × List Bytes)
unfolding put_at
save_decisions [] m = m
save_decisions (d ∷ ds) m = save_decisions ds (put_at (placement_of d) d.clusters m)

-- The results of `getFileds`
pub record PlacementFields : Type 0 where
  pub namespace : Bytes
  pub clusterset : List Bytes
  pub satisfied : Bytes
  pub misconfig : Bytes
  pub selected : ℕ
  pub decision : List Bytes

module _ (tools : Tools) where
  -- The closure `sanitize`
  abbrev pub sanitize : Option Condition → Bytes
  sanitize none = bytes "unknown"
  sanitize (some condition) =
      if bytes_eq condition.status (bytes "True") then bytes "true" else tools.red (bytes "false")

  -- `getFileds`
  abbrev pub get_fields : Placement → List (Bytes × List Bytes) → PlacementFields
  get_fields placement selected_clusters = record {
    namespace = placement.namespace;
    clusterset = placement.cluster_sets;
    satisfied =
        sanitize (tools.find_status_condition placement.conditions (bytes "PlacementSatisfied"));
    misconfig =
        sanitize
          (tools.find_status_condition placement.conditions (bytes "PlacementMisconfigured"));
    selected = placement.selected_count;
    decision = elim (value_at placement.name selected_clusters) [
      | none ↦ bytes "NoClusterSelected" ∷ []
      | some clusters ↦ clusters
    ];
  }

  -- The map `mp` of one placement
  abbrev pub fields : List (Bytes × List Bytes) → Placement → Fields Value
  fields selected_clusters placement =
      let f = get_fields placement selected_clusters in
      (bytes ".Namespace", some (text f.namespace))
      ∷ (bytes ".ClusterSet", some (texts f.clusterset))
      ∷ (bytes ".Status.NumberOfSelectedClusters", some (number f.selected))
      ∷ (bytes ".Status.Conditions.PlacementConditionSatisfied", some (text f.satisfied))
      ∷ (bytes ".Status.Conditions.PlacementConditionMisconfigured", some (text f.misconfig))
      ∷ (bytes ".PlacementDecision", some (texts f.decision))
      ∷ []

abbrev pub columns : List String
columns = "Name" ∷ "Status" ∷ "Reason" ∷ "SeletedClusters" ∷ []

module _ (X : Errors) (tools : Tools) (server : Server Call Answer X.Error) where
  -- `convertRow`; it reads the first condition whether there is one or not.
  unfoldable pub convert_row : Placement → List Bytes → Prog Call (Stop X.Error) (List Value)
  convert_row placement clusters = elim placement.conditions [
    | [] ↦ fail out_of_range
    | c ∷ more ↦ pure (text placement.name ∷ text c.status ∷ text c.reason ∷ texts clusters ∷ [])
  ]

  -- The loop of `converToTable`
  unfoldable pub convert_rows :
      List (Bytes × List Bytes) → List Placement → Prog Call (Stop X.Error) (List (List Value))
  unfolding convert_row
  convert_rows selected_clusters [] = pure []
  convert_rows selected_clusters (placement ∷ placements) =
      convert_row placement (slice_at placement.name selected_clusters) >>= λ row.
      convert_rows selected_clusters placements >>= λ rows. pure (row ∷ rows)

  unfoldable pub convert_to_tree :
      Bytes → List Placement → TreePrinter Value → Prog Call (Stop X.Error) (TreePrinter Value)
  unfolding save_decisions
  convert_to_tree namespace placements tree =
      stop_by panicked (call server (list_decisions namespace)) >>= λ ds. pure (
        add_items tools (λ placement. placement.name) (fields tools (save_decisions ds []))
          placements tree)

  unfoldable pub convert_to_table : Bytes → List Placement → Prog Call (Stop X.Error) (Table Value)
  unfolding save_decisions convert_rows
  convert_to_table namespace placements =
      stop_by panicked (call server (list_decisions namespace)) >>= λ ds.
      convert_rows (save_decisions ds []) placements >>= λ rows.
      pure (record { columns = columns; rows = rows })

  -- `validate`, after the check for a hub
  unfoldable pub check_options : Options → List Bytes → Prog Call (Stop X.Error) Options
  unfolding validate
  check_options o [] = validate X o.printer >> pure o
  check_options o (name ∷ []) = validate X o.printer >> pure (record o { placement_name = name })
  check_options o (a ∷ b ∷ more) =
      fail (returned (X.errorf "the number of placement name should be 0 or 1"))

  -- The lookup of the namespace that is named
  unfoldable pub check_namespace : Bytes → Prog Call (Stop X.Error) (Unit {0})
  check_namespace namespace =
      if is_empty namespace
      then pure tt
      else stop_by returned (call server (get_namespace namespace))

  -- The field selector of `run`
  abbrev pub selector : Bytes → Bytes
  selector name = if is_empty name then [] else bytes "metadata.name=" ++ name

  -- `run`
  unfoldable pub run : Gotree → Options → Prog Call (Stop X.Error) (Unit {0})
  unfolding check_namespace convert_to_tree convert_to_table
  run G o =
      check_namespace o.namespace
      >> stop_by returned (call server (list_placements o.namespace (selector o.placement_name)))
      >>= print_list X (get_values tools) G (λ t. stop_by returned (call server (print_table t)))
          (λ placement. stop_by returned (call server (print_yaml placement))) o.printer
          (record {
            to_tree = convert_to_tree o.namespace;
            to_table = convert_to_table o.namespace;
          })
