-- ===== src/Printer/Tests.antt =====
-- The trie at a key with dots, and the tree of one cluster.
use mathlib.Core.List.{flatten}
use clusteradm.Base.{
  ℕ, ◌+◌, ◌≡◌, Option, none, some, List, [], ◌∷◌, Bytes, bytes, bytes_eq, ◌++◌, refl, ◌==◌,
  if◌then◌else◌,
}
use clusteradm.Printer.Trie.{Trie, node, end, child, default_segmenter, get, put, enough, is_leaf}
use clusteradm.Printer.Trie.Segments.{visited, visited_key}
use clusteradm.Printer.Trie.Paths.{is_nil}
use clusteradm.Printer.Trie.Laws.{get-put}
use clusteradm.Printer.TreePrinter.{
  Gotree, Values, Fields, TreePrinter, new_tree_printer, add_fields, dfs, build,
}
use clusteradm.Printer.TreePrinter.Abstract.{assign_fields, Refines}
use clusteradm.Printer.TreePrinter.Refines.{add_fields-Refines, new_trie-Refines}
use clusteradm.Printer.Trie.Bounds.{IsWithin, default_segmenter-IsWithin}

-- `.spec.name`
abbrev spec_name : Bytes
spec_name = b'.' ∷ b's' ∷ b'p' ∷ b'e' ∷ b'c' ∷ b'.' ∷ b'n' ∷ b'a' ∷ b'm' ∷ b'e' ∷ []

abbrev tree : Trie ℕ
tree = node none (child (b'.' ∷ b's' ∷ b'p' ∷ b'e' ∷ b'c' ∷ []) (node (some 1) end) end)

-- It counts the calls and fails at the first value of 3.
abbrev count_calls : Bytes → ℕ → ℕ → Option ℕ × ℕ
count_calls key v n = (if v == 3 then some v else none, n + 1)

get-put_example :
    (old : Option ℕ) × (t' : Trie ℕ) × (get default_segmenter spec_name tree ≡ some old)
    × (put default_segmenter spec_name (some 2) tree ≡ some (t', is_nil old))
    × ((j : Bytes)
        → get default_segmenter j t'
          ≡ (if bytes_eq spec_name j then some (some 2) else get default_segmenter j tree))
get-put_example = get-put spec_name (some 2) tree

visited_key_example :
    (ps : List Bytes) × (visited default_segmenter spec_name
        (enough spec_name)
        (default_segmenter spec_name (some 0))
      ≡ some ps)
    × (flatten ps ≡ spec_name)
visited_key_example = visited_key spec_name

abbrev values : Values Bytes
values = record { empty = []; print_value = λ v. v }

-- A tree is its lines.
abbrev lines : Gotree
lines = record {
  Tree = List Bytes;
  new = λ line. line ∷ [];
  add_tree = λ tree sub. tree ++ sub;
  print_tree = λ tree. "lines";
}

abbrev cluster_fields : Fields Bytes
cluster_fields =
    (bytes ".Status", some (bytes "ok")) ∷ (bytes ".Capacity.Cpu", some (bytes "4")) ∷ []

abbrev printer : TreePrinter Bytes
printer = new_tree_printer (bytes "ManagedCluster")

add_fields-Refines_example :
    Refines
      (add_fields values (bytes "c1") (some cluster_fields) printer).tree
      (assign_fields [] (bytes "c1") cluster_fields (λ j. none))
    × (add_fields values (bytes "c1") none printer ≡ printer)
add_fields-Refines_example =
    add_fields-Refines values (bytes "c1") cluster_fields printer (λ j. none) new_trie-Refines

abbrev filled_printer : TreePrinter Bytes
filled_printer = record {
  name = bytes "ManagedCluster";
  tree = node none (
      child (bytes "c1") (node none (child (bytes ".Status") (node (some (bytes "ok")) end) end))
        end);
}

test_build :
    (build values lines filled_printer).0
    ≡ bytes "<ManagedCluster> " ∷ bytes "<c1> " ∷ bytes "<Status> ok" ∷ []
unfolding build dfs is_leaf
test_build = refl

default_segmenter-IsWithin_example : IsWithin spec_name 5 (default_segmenter spec_name (some 5))
default_segmenter-IsWithin_example = default_segmenter-IsWithin spec_name 5
