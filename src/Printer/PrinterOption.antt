-- ===== src/Printer/PrinterOption.antt =====
-- pkg/helpers/printer/option.go: the formats of the get commands. What prints a table and an object as
-- YAML is k8s.io/cli-runtime, a parameter.
use clusteradm.Base.{Bytes, String, text_eq, ◌&&◌, not, List, [], ◌∷◌, if◌then◌else◌}
use clusteradm.Effect.{Prog, pure, fail, say, ◌>>=◌, ◌>>◌}
use clusteradm.Errors.{Errors}
use clusteradm.Printer.TreePrinter.{Gotree, Values, TreePrinter, new_tree_printer, build}

-- How a command ends early: it returns an error, it panics with one, or it indexes out of a slice.
pub data Stop (E : Type 0) : Type 0 where
  returned : E → Stop E
  panicked : E → Stop E
  out_of_range : Stop E

-- metav1.Table: the names of its columns, and its rows of cells.
pub record Table (V : Type 0) : Type 0 where
  pub columns : List String
  pub rows : List (List V)

pub record PrinterOption (V : Type 0) : Type 0 where
  pub format : String
  pub kind : Bytes
  pub tree : TreePrinter V

-- `Competele`
abbrev pub complete : {V : Type 0} → PrinterOption V → PrinterOption V
complete p = record p { tree = new_tree_printer p.kind }

module _ {C V : Type 0} (X : Errors) where
  -- `Validate`
  unfoldable pub validate : PrinterOption V → Prog C (Stop X.Error) (Unit {0})
  validate p =
      if not (text_eq p.format "tree")
        && not (text_eq p.format "table")
        && not (text_eq p.format "yaml")
      then fail (returned (X.errorf "invalid output format"))
      else pure tt

-- The functions of `WithTreeConverter` and `WithTableConverter`.
pub record Converters (C E V Obj : Type 0) : Type 0 where
  pub to_tree : List Obj → TreePrinter V → Prog C E (TreePrinter V)
  pub to_table : List Obj → Prog C E (Table V)

module _ {C V Obj : Type 0} (X : Errors) (values : Values V) (G : Gotree)
    (print_table : Table V → Prog C (Stop X.Error) (Unit {0}))
    (print_yaml : Obj → Prog C (Stop X.Error) (Unit {0})) where
  -- The loop over the objects that `meta.ExtractList` finds in a list.
  unfoldable pub print_each : List Obj → Prog C (Stop X.Error) (Unit {0})
  print_each [] = pure tt
  print_each (item ∷ items) = print_yaml item >> print_each items

  -- `Print` of a list
  unfoldable pub print_list :
      PrinterOption V
      → Converters C (Stop X.Error) V Obj
      → List Obj
      → Prog C (Stop X.Error) (Unit {0})
  unfolding print_each
  print_list p converters items =
      if text_eq p.format "tree"
      then converters.to_tree items p.tree >>= (λ tree. say (G.print_tree (build values G tree).0))
      else if text_eq p.format "table"
      then converters.to_table items >>= print_table
      else if text_eq p.format "yaml"
      then print_each items
      else fail (returned (X.errorf "invalid output format"))
