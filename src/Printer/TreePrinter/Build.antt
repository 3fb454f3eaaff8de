-- ===== src/Printer/TreePrinter/Build.antt =====
-- What `build` of treeprinter.go does to the trie while it prints it.
use clusteradm.Base.{
  ◌≡◌, refl, ap, Bytes, Option, none, some, List, [], ◌∷◌, ◌⊎◌, inl, inr, arith, Option-cases,
}
use clusteradm.Printer.Trie.{
  Trie, Children, node, end, child, get, default_segmenter, is_leaf, lookup_child,
}
use clusteradm.Printer.Trie.Segments.{segments}
use clusteradm.Printer.Trie.Paths.{get_path}
use clusteradm.Printer.Trie.Laws.{get-eq-get_path}
use clusteradm.Printer.TreePrinter.{
  Gotree, Values, TreePrinter, filled, trim_dot, line, dfs, dfs_children, build,
}

module _ {ℓ} {V : Type ℓ} (values : Values V) where
  -- The trie with its nil values replaced.
  mutual
    fill : Trie V → Trie V
    fill (node v cs) = node (some (filled values v)) (fill_children cs)

    fill_children : Children V → Children V
    fill_children end = end
    fill_children (child key t cs) = child key (fill t) (fill_children cs)

  -- What a key answers after the build, by what it answered before.
  abbrev pub IsFilled : Option V → Option V → Type ℓ
  IsFilled (some v) after = after ≡ some v
  IsFilled none after = (after ≡ none) ⊎ (after ≡ some values.empty)

  lookup_child-fill_children :
      (k : Bytes) (cs : Children V)
      → lookup_child k (fill_children cs)
        ≡ elim (lookup_child k cs) [ none ↦ none | some t ↦ some (fill t) ]
  unfolding lookup_child fill_children
  lookup_child-fill_children k end = refl
  lookup_child-fill_children k (child j t cs) = ground (arith, lookup_child-fill_children k cs)

  get_path-fill : (ps : List Bytes) (t : Trie V) → IsFilled (get_path ps t) (get_path ps (fill t))
  unfolding get_path fill
  get_path-fill [] (node none cs) = inr refl
  get_path-fill [] (node (some v) cs) = refl
  get_path-fill (p ∷ ps) (node v cs) = elim (Option-cases (lookup_child p cs)) [
    | inl missing ↦ rw (get_path, fill, lookup_child-fill_children p cs, missing) (inl refl)
    | inr (t, found) ↦
        rw (get_path, fill, lookup_child-fill_children p cs, found) (get_path-fill ps t)
  ]

  module _ (G : Gotree) where
    mutual
      unfolding dfs fill is_leaf

      dfs-fill : (part : Bytes) (t : Trie V) → (dfs values G part t).1 ≡ fill t
      dfs-fill part (node v end) = refl
      dfs-fill part (node v (child key t cs)) =
          ap (λ ds. node (some (filled values v)) ds)
            (dfs_children-fill (G.new (line values G part (filled values v))) (child key t cs))

      dfs_children-fill :
          (level : G.Tree) (cs : Children V) → (dfs_children values G level cs).1 ≡ fill_children cs
      dfs_children-fill level end = refl
      dfs_children-fill level (child key t cs) =
          rw
            (
              dfs-fill (trim_dot key) t,
              dfs_children-fill (G.add_tree level (dfs values G (trim_dot key) t).0) cs,
            )
            refl

    mutual
      unfolding dfs fill is_leaf

      dfs_of-fill :
          (part : Bytes) (t : Trie V) → (dfs values G part (fill t)).0 ≡ (dfs values G part t).0
      dfs_of-fill part (node v end) = refl
      dfs_of-fill part (node v (child key t cs)) =
          dfs_children_of-fill (G.new (line values G part (filled values v))) (child key t cs)

      dfs_children_of-fill :
          (level : G.Tree) (cs : Children V)
          → (dfs_children values G level (fill_children cs)).0 ≡ (dfs_children values G level cs).0
      dfs_children_of-fill level end = refl
      dfs_children_of-fill level (child key t cs) =
          rw (dfs_of-fill (trim_dot key) t)
            (dfs_children_of-fill (G.add_tree level (dfs values G (trim_dot key) t).0) cs)

    -- `build` changes what a key answers in the trie in one way only, from nil to the empty text; a value that
    -- is there is kept. A second `build` makes the same tree as the first.
    build_again :
        (p : TreePrinter V)
        → ((j : Bytes)
            → (before : Option V) × (after : Option V) × (get default_segmenter j p.tree
                ≡ some before)
              × (get default_segmenter j (build values G p).1.tree ≡ some after)
              × IsFilled before after)
          × ((build values G (build values G p).1).0 ≡ (build values G p).0)
    unfolding build
    build_again p =
        let whole = dfs-fill p.name p.tree in
        (
          λ j. (
            get_path (segments j) p.tree,
            get_path (segments j) (fill p.tree),
            get-eq-get_path j p.tree,
            rw whole (get-eq-get_path j (fill p.tree)),
            get_path-fill (segments j) p.tree,
          ),
          rw whole (dfs_of-fill p.name p.tree),
        )
