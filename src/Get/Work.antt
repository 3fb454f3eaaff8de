-- ===== src/Get/Work.antt =====
-- pkg/cmd/get/work/exec.go: the works of a managed cluster.
use clusteradm.Base.{
  Bytes, bytes, ℕ, Option, none, some, List, [], ◌∷◌, ◌++◌, map, length, if◌then◌else◌,
}
use clusteradm.Effect.{Prog, Server, pure, fail, call, ◌>>=◌, ◌>>◌}
use clusteradm.Errors.{Errors}
use clusteradm.Printer.TreePrinter.{Fields, Gotree, TreePrinter}
use clusteradm.Printer.PrinterOption
use clusteradm.Printer.PrinterOption.{
  Stop, returned, Table, PrinterOption, Converters, validate, print_list,
}
use clusteradm.Get.{Value, text, number, Condition, Tools, get_values, stop_by, add_items, is_empty}

-- A manifest is the bytes of its object.
pub record ManifestWork : Type 0 where
  pub name : Bytes
  pub namespace : Bytes
  pub manifests : List Bytes
  pub conditions : List Condition

-- A field selector is empty for all works.
pub data Call : Type 0 where
  get_cluster : Bytes → Call
  list_works : Bytes → Bytes → Call
  print_table : Table Value → Call
  print_yaml : ManifestWork → Call

abbrev pub Answer : Call → Type 0
Answer (get_cluster name) = Unit {0}
Answer (list_works cluster field_selector) = List ManifestWork
Answer (print_table table) = Unit {0}
Answer (print_yaml work) = Unit {0}

pub record Options : Type 0 where
  pub cluster : Bytes
  pub work_name : Bytes
  pub printer : PrinterOption Value

abbrev status_of : Option Condition → Bytes
status_of none = []
status_of (some condition) = condition.status

-- The results of `getFileds`
pub record WorkFields : Type 0 where
  pub cluster : Bytes
  pub manifest_count : ℕ
  pub applied : Bytes
  pub available : Bytes

module _ (tools : Tools) where
  -- `getFileds`
  abbrev pub get_fields : ManifestWork → WorkFields
  get_fields work = record {
    cluster = work.namespace;
    manifest_count = length work.manifests;
    applied = status_of (tools.find_status_condition work.conditions (bytes "Applied"));
    available = status_of (tools.find_status_condition work.conditions (bytes "Available"));
  }

  -- The map `mp` of one work
  abbrev pub fields : ManifestWork → Fields Value
  fields work =
      let f = get_fields work in
      (bytes ".Cluster", some (text f.cluster))
      ∷ (bytes ".Number of Manifests", some (number f.manifest_count))
      ∷ (bytes ".Applied", some (text f.applied))
      ∷ (bytes ".Available", some (text f.available))
      ∷ []

  -- The cells of one work
  abbrev pub cells : ManifestWork → List Value
  cells work =
      let f = get_fields work in
      text work.name
      ∷ text f.cluster
      ∷ number f.manifest_count
      ∷ text f.applied
      ∷ text f.available
      ∷ []

  unfoldable pub convert_to_tree : List ManifestWork → TreePrinter Value → TreePrinter Value
  unfolding add_items
  convert_to_tree works tree = add_items tools (λ work. work.name) fields works tree

  unfoldable pub convert_to_table : List ManifestWork → Table Value
  convert_to_table works = record {
    columns = "Name" ∷ "Cluster" ∷ "Number Of Manifests" ∷ "Applied" ∷ "Available" ∷ [];
    rows = map cells works;
  }

module _ (X : Errors) (tools : Tools) (server : Server Call Answer X.Error) where
  -- `complete`
  unfoldable pub complete : Options → List Bytes → Prog Call (Stop X.Error) Options
  complete o [] = pure (record o { printer = PrinterOption.complete o.printer })
  complete o (name ∷ []) =
      pure (record o { work_name = name; printer = PrinterOption.complete o.printer })
  complete o (a ∷ b ∷ more) = fail (returned (X.errorf "can only specify one manifestwork"))

  -- `validate`, after the check for a hub
  unfoldable pub check_options : Options → Prog Call (Stop X.Error) (Unit {0})
  unfolding validate
  check_options o =
      if is_empty o.cluster
      then fail (returned (X.errorf "cluster name must be specified"))
      else validate X o.printer

  -- The selector of `run`
  abbrev pub selector : Bytes → Bytes
  selector work_name = if is_empty work_name then [] else bytes "name=" ++ work_name

  -- `run`
  unfoldable pub run : Gotree → Options → Prog Call (Stop X.Error) (Unit {0})
  unfolding convert_to_tree convert_to_table
  run G o =
      stop_by returned (call server (get_cluster o.cluster))
      >> stop_by returned (call server (list_works o.cluster (selector o.work_name)))
      >>= print_list X (get_values tools) G (λ t. stop_by returned (call server (print_table t)))
          (λ work. stop_by returned (call server (print_yaml work))) o.printer
          (record {
            to_tree = λ works tree. pure (convert_to_tree tools works tree);
            to_table = λ works. pure (convert_to_table tools works);
          })
