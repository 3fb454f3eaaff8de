-- ===== src/Printer/TreePrinter/Abstract.antt =====
-- What treeprinter.go promises of its fields: a map from whole keys to values.
use clusteradm.Base.{◌≡◌, Bytes, bytes_eq, Option, some, [], ◌∷◌, ◌++◌, if◌then◌else◌}
use clusteradm.Printer.Trie.{Trie, get, default_segmenter}
use clusteradm.Printer.TreePrinter.{Fields}

-- The abstract state: the value of each key, `none` for nil and for a key that was not put.
abbrev pub Map {ℓ} : Type ℓ → Type ℓ
Map V = Bytes → Option V

module _ {ℓ} {V : Type ℓ} where
  abbrev pub assign : Bytes → Option V → Map V → Map V
  assign k v m j = if bytes_eq k j then v else m j

  -- The fields of one name, one assignment after the other.
  abbrev pub assign_each : Bytes → Fields V → Map V → Map V
  assign_each name [] m = m
  assign_each name ((k, v) ∷ mp) m = assign_each name mp (assign (name ++ k) v m)

  -- The name itself has the value `empty`.
  abbrev pub assign_fields : V → Bytes → Fields V → Map V → Map V
  assign_fields empty name mp m = assign_each name mp (assign name (some empty) m)

  -- The trie answers each key as the map does.
  abbrev pub Refines : Trie V → Map V → Type ℓ
  Refines t m = (j : Bytes) → get default_segmenter j t ≡ some (m j)
