-- ===== src/Get.antt =====
-- pkg/cmd/get: what the commands that list objects have in common. They read the objects of a hub and
-- print them as a tree, as a table or as YAML.
pub mod GoMap
pub mod Keys
pub mod Shown
pub mod Clusterset
pub mod Work
pub mod Cluster
pub mod Placement
pub mod Addon
mod Tests
use clusteradm.Base.{Bytes, Bool, true, false, ℕ, Option, none, some, List, [], ◌∷◌, ◌++◌}
use clusteradm.Effect.{Result, ok, err, Prog, Trace}
use clusteradm.Printer.TreePrinter.{Fields, Values, TreePrinter, add_fields}

-- The values that the commands print. Counts are not negative.
pub data Value : Type 0 where
  text : Bytes → Value
  texts : List Bytes → Value
  number : ℕ → Value
  flag : Bool → Value

-- metav1.Condition, the fields that are read.
pub record Condition : Type 0 where
  pub kind : Bytes
  pub status : Bytes
  pub reason : Bytes
  pub message : Bytes

-- What the commands use of the other projects: `meta.FindStatusCondition`, the verb %v, `color.RedString`,
-- and the order in which `range` visits a map.
pub record Tools : Type 0 where
  pub find_status_condition : List Condition → Bytes → Option Condition
  pub print_value : Value → Bytes
  pub red : Bytes → Bytes
  pub visit : Fields Value → Fields Value

abbrev pub get_values : Tools → Values Value
get_values tools = record { empty = text []; print_value = tools.print_value }

-- The error of a part of a command, as an end of the command.
abbrev map_error : {E F A : Type 0} → (E → F) → Result E A → Result F A
map_error f (ok a) = ok a
map_error f (err e) = err (f e)

unfoldable pub stop_by : {C E F A : Type 0} → (E → F) → Prog C E A → Prog C F A
stop_by f m h = let (r, new) = m h in (map_error f r, new)

-- The loop of the converters over the objects of a list: each has a name and fields.
module _ {A : Type 0} (tools : Tools) (name : A → Bytes) (fields : A → Fields Value) where
  unfoldable pub add_items : List A → TreePrinter Value → TreePrinter Value
  add_items [] p = p
  add_items (x ∷ xs) p =
      add_items xs (add_fields (get_values tools) (name x) (some (tools.visit (fields x))) p)

-- `len(s) == 0`
abbrev pub is_empty : Bytes → Bool
is_empty [] = true
is_empty (c ∷ s) = false

-- `strings.Join`
abbrev pub join : Bytes → List Bytes → Bytes
join sep [] = []
join sep (s ∷ []) = s
join sep (s ∷ rest) = s ++ sep ++ join sep rest
