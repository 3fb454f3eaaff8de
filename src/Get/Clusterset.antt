-- ===== src/Get/Clusterset.antt =====
-- pkg/cmd/get/clusterset/exec.go: the cluster sets, each with the namespaces that it is bound to.
pub mod Laws
use clusteradm.Base.{
  Bytes, bytes, Bool, true, false, String, Option, none, some, List, [], ◌∷◌, ◌++◌, map,
  if◌then◌else◌,
}
use clusteradm.Effect.{Result, Prog, Server, pure, fail, call, ◌>>=◌, ◌>>◌}
use clusteradm.Errors.{Errors}
use clusteradm.Printer.TreePrinter.{Fields, Gotree, TreePrinter}
use clusteradm.Printer.PrinterOption.{
  Stop, returned, panicked, Table, PrinterOption, Converters, complete, validate, print_list,
}
use clusteradm.Get.{Value, text, Condition, Tools, get_values, stop_by, add_items, join}
use clusteradm.Get.GoMap.{value_at, put_at, slice_at}

pub record ManagedClusterSet : Type 0 where
  pub name : Bytes
  pub conditions : List Condition

pub record Binding : Type 0 where
  pub namespace : Bytes
  pub cluster_set : Bytes

pub data Call : Type 0 where
  list_cluster_sets list_bindings : Call
  print_table : Table Value → Call
  print_yaml : ManagedClusterSet → Call

abbrev pub Answer : Call → Type 0
Answer list_cluster_sets = List ManagedClusterSet
Answer list_bindings = List Binding
Answer (print_table table) = Unit {0}
Answer (print_yaml set) = Unit {0}

-- The body of the loop over the bindings
abbrev pub bind_one : Binding → List (Bytes × List Bytes) → List (Bytes × List Bytes)
bind_one b m =
    let m' : List (Bytes × List Bytes) = elim (value_at b.cluster_set m) [
      | none ↦ put_at b.cluster_set [] m
      | some namespaces ↦ m
    ] in
    put_at b.cluster_set (slice_at b.cluster_set m' ++ b.namespace ∷ []) m'

-- `bindingMap` after the loop over the bindings
unfoldable pub bind_all : List Binding → List (Bytes × List Bytes) → List (Bytes × List Bytes)
unfolding value_at put_at
bind_all [] m = m
bind_all (b ∷ bs) m = bind_all bs (bind_one b m)

abbrev message_of : Option Condition → Bytes
message_of none = []
message_of (some condition) = condition.message

module _ (tools : Tools) where
  -- `getFileds`
  abbrev pub get_fields : ManagedClusterSet → List Bytes → Bytes × Bytes
  get_fields set bindings = (
    join (bytes ",") bindings,
    message_of (tools.find_status_condition set.conditions (bytes "ClusterSetEmpty")),
  )

  -- The map `mp` of one cluster set
  abbrev pub fields : List (Bytes × List Bytes) → ManagedClusterSet → Fields Value
  fields binding_map set =
      let (bound, status) = get_fields set (slice_at set.name binding_map) in
      (bytes ".BoundNamespace", some (text bound)) ∷ (bytes ".Status", some (text status)) ∷ []

  -- The cells of one cluster set
  abbrev pub cells : List (Bytes × List Bytes) → ManagedClusterSet → List Value
  cells binding_map set =
      let (bound, status) = get_fields set (slice_at set.name binding_map) in
      text set.name ∷ text bound ∷ text status ∷ []

abbrev pub columns : List String
columns = "Name" ∷ "Bound Namespaces" ∷ "Status" ∷ []

module _ (X : Errors) (tools : Tools) (server : Server Call Answer X.Error) where
  unfoldable pub convert_to_tree :
      List ManagedClusterSet → TreePrinter Value → Prog Call (Stop X.Error) (TreePrinter Value)
  unfolding bind_all
  convert_to_tree sets tree = stop_by panicked (call server list_bindings) >>= λ bindings.
      pure (add_items tools (λ set. set.name) (fields tools (bind_all bindings [])) sets tree)

  unfoldable pub convert_to_table : List ManagedClusterSet → Prog Call (Stop X.Error) (Table Value)
  unfolding bind_all
  convert_to_table sets = stop_by panicked (call server list_bindings) >>= λ bindings.
      pure (record { columns = columns; rows = map (cells tools (bind_all bindings [])) sets })

  -- `validate`, after the check for a hub
  unfoldable pub check_options :
      List String → PrinterOption Value → Prog Call (Stop X.Error) (Unit {0})
  unfolding validate
  check_options [] printer = validate X printer
  check_options (arg ∷ args) printer = fail (returned (X.errorf "there should be no argument"))

  -- `run`
  unfoldable pub run : Gotree → PrinterOption Value → Prog Call (Stop X.Error) (Unit {0})
  run G printer =
      stop_by returned (call server list_cluster_sets)
      >>= print_list X (get_values tools) G (λ t. stop_by returned (call server (print_table t)))
          (λ set. stop_by returned (call server (print_yaml set))) printer
          (record { to_tree = convert_to_tree; to_table = convert_to_table })
