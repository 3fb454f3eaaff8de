-- ===== src/Printer/TreePrinter/Refines.antt =====
-- `AddFileds` of treeprinter.go over the trie does what the map of whole keys does.
use clusteradm.Base.{◌≡◌, refl, Bytes, Option, none, some, [], ◌∷◌, ◌++◌, arith}
use clusteradm.Printer.Trie.{Trie, new_trie}
use clusteradm.Printer.Trie.Laws.{get-put, get-eq-get_path}
use clusteradm.Printer.Trie.Segments.{segments}
use clusteradm.Printer.Trie.Paths.{get_path-new}
use clusteradm.Printer.TreePrinter.{Fields, Values, TreePrinter, add, add_each, add_fields}
use clusteradm.Printer.TreePrinter.Abstract.{Map, assign, assign_each, assign_fields, Refines}

module _ {ℓ} {V : Type ℓ} where
  add-Refines :
      (k : Bytes) (v : Option V) (t : Trie V) (m : Map V)
      → Refines t m
      → Refines (add k v t) (assign k v m)
  unfolding add
  add-Refines k v t m r j =
      let (old, t', _, put_some, answers) = get-put k v t in
      rw (add, put_some) (ground (arith, answers j, r j))

  add_each-Refines :
      (name : Bytes) (mp : Fields V) (t : Trie V) (m : Map V)
      → Refines t m
      → Refines (add_each name mp t) (assign_each name mp m)
  unfolding add_each
  add_each-Refines name [] t m r = r
  add_each-Refines name ((k, v) ∷ mp) t m r =
      add_each-Refines name mp (add (name ++ k) v t) (assign (name ++ k) v m)
        (add-Refines (name ++ k) v t m r)

  -- If the trie of the printer answers each key as a map does, then after `AddFileds` it answers each key as
  -- the map does to which the name is assigned with the empty text and then each field in the order of the
  -- iteration, under the name followed by the field's key. A nil pointer changes nothing.
  pub add_fields-Refines :
      (values : Values V) (name : Bytes) (mp : Fields V) (p : TreePrinter V) (m : Map V)
      → Refines p.tree m
      → Refines (add_fields values name (some mp) p).tree (assign_fields values.empty name mp m)
        × (add_fields values name none p ≡ p)
  unfolding add_fields
  add_fields-Refines values name mp p m r =
      (add_each-Refines name mp _ _ (add-Refines name (some values.empty) p.tree m r), refl)

  -- A new printer answers nil for each key.
  pub new_trie-Refines : Refines (new_trie {V = V}) (λ j. none)
  new_trie-Refines j = rw (get-eq-get_path j (new_trie {V = V}), get_path-new {V = V} (segments j))
