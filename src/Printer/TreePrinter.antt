-- ===== src/Printer/TreePrinter.antt =====
-- pkg/helpers/printer/treeprinter.go: the tree of names and fields, and the lines that it prints.
pub mod Abstract
pub mod Refines
pub mod Build
use clusteradm.Base.{
  Bytes, String, Option, none, some, List, [], ◌∷◌, ◌++◌, ◌==◌, if◌then◌else◌, Bool, true, false,
}
use clusteradm.Printer.Trie.{
  Trie, Children, node, end, child, new_trie, put, default_segmenter, is_leaf,
}

-- github.com/disiqueira/gotree: `New`, the trees after `AddTree`, and `Print`.
pub record Gotree : Type 1 where
  pub Tree : Type 0
  pub new : Bytes → Tree
  pub add_tree : Tree → Tree → Tree
  pub print_tree : Tree → String

-- The values that are printed: a way to make the empty text one of them, and the verb %v of fmt.
pub record Values {ℓ} (V : Type ℓ) : Type ℓ where
  pub empty : V
  pub print_value : V → Bytes

-- A map in the order in which `range` visits it; a value is `none` for nil.
abbrev pub Fields {ℓ} : Type ℓ → Type ℓ
Fields V = List (Bytes × Option V)

pub record TreePrinter {ℓ} (V : Type ℓ) : Type ℓ where
  pub name : Bytes
  pub tree : Trie V

-- `NewTreePrinter`
abbrev pub new_tree_printer {ℓ} : {V : Type ℓ} → Bytes → TreePrinter V
new_tree_printer name = record { name = name; tree = new_trie }

module _ {ℓ} {V : Type ℓ} where
  -- `add`; the answer of `Put` is not used.
  unfoldable pub add : Bytes → Option V → Trie V → Trie V
  add key v t = elim (put default_segmenter key v t) [ none ↦ t | some (u, fresh) ↦ u ]

  -- The loop of `AddFileds`
  unfoldable pub add_each : Bytes → Fields V → Trie V → Trie V
  add_each name [] t = t
  add_each name ((key, v) ∷ mp) t = add_each name mp (add (name ++ key) v t)

module _ {ℓ} {V : Type ℓ} (values : Values V) where
  -- `AddFileds`, where `none` is a nil pointer.
  unfoldable pub add_fields : Bytes → Option (Fields V) → TreePrinter V → TreePrinter V
  add_fields name none p = p
  add_fields name (some mp) p = record p {
    tree = add_each name mp (add name (some values.empty) p.tree);
  }

-- `strings.TrimPrefix(key, ".")`
abbrev pub trim_dot : Bytes → Bytes
trim_dot [] = []
trim_dot (c ∷ s) = if c == b'.' then s else c ∷ s

module _ {ℓ} {V : Type ℓ} (values : Values V) where
  -- A nil value is replaced.
  abbrev pub filled : Option V → V
  filled none = values.empty
  filled (some v) = v

module _ {ℓ} {V : Type ℓ} (values : Values V) (G : Gotree) where
  -- `fmt.Sprintf("<%s> %v", part, root.value)`
  abbrev pub line : Bytes → V → Bytes
  line part v = b'<' ∷ (part ++ b'>' ∷ b' ' ∷ values.print_value v)

  -- The closure `dfs`: the tree that is printed, and the trie with its nil values replaced.
  unfoldable mutual
    pub dfs : Bytes → Trie V → G.Tree × Trie V
    dfs part (node v cs) =
        let level0 = G.new (line part (filled values v)) in
        let (level, cs') = dfs_children level0 cs in
        if is_leaf (node v cs)
        then (level0, node (some (filled values v)) cs)
        else (level, node (some (filled values v)) cs')

    pub dfs_children : G.Tree → Children V → G.Tree × Children V
    dfs_children level0 end = (level0, end)
    dfs_children level0 (child key t cs) =
        let (sub, t') = dfs (trim_dot key) t in
        let (level, cs') = dfs_children (G.add_tree level0 sub) cs in (level, child key t' cs')

  -- `build`, with the printer after it.
  unfoldable pub build : TreePrinter V → G.Tree × TreePrinter V
  build p = let (tree, t) = dfs p.name p.tree in (tree, record p { tree = t })
