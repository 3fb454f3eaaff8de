-- ===== src/Get/Addon/Laws.antt =====
-- Which add-ons `get addon` shows under which clusters.
use clusteradm.Base.{
  ◌≡◌, refl, sym, ap, ◌∙◌, Bytes, bytes, bytes_eq, ◌&&◌, Option, none, some, List, [], ◌∷◌, ◌++◌,
  map, select, inl, inr, Bool-cases,
}
use mathlib.Core.List.{append-nil, append_assoc}
use clusteradm.Effect.{Result, ok, err, print, request, Trace, Server, say, call, ◌>>=◌}
use clusteradm.Errors.{Errors}
use clusteradm.Printer.TreePrinter.{Gotree}
use clusteradm.Get.GoMap.{value_at, slice_at, append_at, slice_at-append_at}
use clusteradm.Get.Addon.{
  Addon, ManifestWork, Tools, Call, Answer, list_addons, list_works, Options, addon_label,
  should_show, by_cluster, addon_of, add_trees, addon_node, work_nodes, addon_nodes, cluster_nodes,
  print_addon_tree,
}

-- The add-ons of a cluster that are to be shown.
abbrev pub addons_of : List Bytes → Bytes → List Addon → List Addon
addons_of selecting cluster addons =
    select (λ a. should_show selecting a && bytes_eq a.namespace cluster) addons

slice_at-by_cluster :
    (selecting : List Bytes) (cluster : Bytes) (addons : List Addon) (m : List (Bytes × List Addon))
    → slice_at cluster (by_cluster selecting addons m)
      ≡ slice_at cluster m ++ addons_of selecting cluster addons
unfolding by_cluster select
slice_at-by_cluster selecting cluster [] m = sym (append-nil (slice_at cluster m))
slice_at-by_cluster selecting cluster (a ∷ addons) m = elim (Bool-cases (should_show selecting a)) [
  | inr hidden ↦ rw hidden (slice_at-by_cluster selecting cluster addons m)
  | inl shown ↦
      let e = slice_at-by_cluster selecting cluster addons (append_at a.namespace a m) in
      let grown = slice_at-append_at a.namespace cluster a m in
      elim (Bool-cases (bytes_eq a.namespace cluster)) [
        | inl here ↦
            rw (shown, here, e, grown, here)
              (append_assoc (slice_at cluster m) (a ∷ []) (addons_of selecting cluster addons))
        | inr away ↦ rw (shown, away, e, grown, away) refl
      ]
]

module _ (tools : Tools) (G : Gotree) where
  -- The trees of an add-on, one for each work of the cluster with its label.
  abbrev pub works_of : Bytes → Addon → List ManifestWork → List G.Tree
  works_of cluster addon works =
      map (addon_node tools G addon)
        (select (λ w. bytes_eq cluster w.namespace && bytes_eq (addon_of w) addon.name) works)

  work_nodes-eq-works_of :
      (cluster : Bytes) (addon : Addon) (works : List ManifestWork)
      → work_nodes tools G cluster addon works ≡ works_of cluster addon works
  unfolding work_nodes select
  work_nodes-eq-works_of cluster addon [] = refl
  work_nodes-eq-works_of cluster addon (w ∷ works) =
      let rest = work_nodes-eq-works_of cluster addon works in
      elim (Bool-cases (bytes_eq cluster w.namespace && bytes_eq (addon_of w) addon.name)) [
        | inl match ↦ rw match (ap (λ ts. addon_node tools G addon w ∷ ts) rest)
        | inr other ↦ rw other rest
      ]

  abbrev pub all_works_of : Bytes → List ManifestWork → List Addon → List G.Tree
  all_works_of cluster works [] = []
  all_works_of cluster works (addon ∷ addons) =
      works_of cluster addon works ++ all_works_of cluster works addons

  addon_nodes-eq-all_works_of :
      (cluster : Bytes) (works : List ManifestWork) (addons : List Addon)
      → addon_nodes tools G cluster works addons ≡ all_works_of cluster works addons
  unfolding addon_nodes
  addon_nodes-eq-all_works_of cluster works [] = refl
  addon_nodes-eq-all_works_of cluster works (addon ∷ addons) =
      rw (work_nodes-eq-works_of cluster addon works) (
        ap (λ ts. works_of cluster addon works ++ ts)
          (addon_nodes-eq-all_works_of cluster works addons))

  -- The tree of a cluster.
  abbrev pub cluster_tree : List Bytes → List Addon → List ManifestWork → Bytes → G.Tree
  cluster_tree selecting addons works cluster =
      add_trees tools G (G.new (tools.blue cluster))
        (all_works_of cluster works (addons_of selecting cluster addons))

  found_nodes :
      (cluster : Bytes) (works : List ManifestWork) (found : Option (List Addon))
      → (elim found [ none ↦ [] | some shown ↦ addon_nodes tools G cluster works shown ])
        ≡ addon_nodes tools G cluster works (elim found [ none ↦ [] | some shown ↦ shown ])
  unfolding addon_nodes
  found_nodes cluster works none = refl
  found_nodes cluster works (some shown) = refl

  cluster_nodes-eq-cluster_tree :
      (selecting : List Bytes) (addons : List Addon) (works : List ManifestWork)
      (clusters : List Bytes)
      → cluster_nodes tools G (by_cluster selecting addons []) works clusters
        ≡ map (cluster_tree selecting addons works) clusters
  unfolding cluster_nodes value_at
  cluster_nodes-eq-cluster_tree selecting addons works [] = refl
  cluster_nodes-eq-cluster_tree selecting addons works (c ∷ clusters) =
      let nodes =
        found_nodes c works (value_at c (by_cluster selecting addons []))
        ∙ ap (addon_nodes tools G c works) (slice_at-by_cluster selecting c addons [])
        ∙ addon_nodes-eq-all_works_of c works (addons_of selecting c addons) in
      ap
        (λ ts.
          add_trees tools G (G.new (tools.blue c)) ts
          ∷ cluster_nodes tools G (by_cluster selecting addons []) works clusters)
        nodes
      ∙ ap (λ ts. cluster_tree selecting addons works c ∷ ts)
          (cluster_nodes-eq-cluster_tree selecting addons works clusters)

module _ (X : Errors) (tools : Tools) (G : Gotree) (server : Server Call Answer X.Error)
    (o : Options) (clusters : List Bytes) where
  -- The run of `printAddonTree` by the answers to its two calls, the last event first.
  abbrev pub addon_run :
      Result X.Error (List Addon)
      → Result X.Error (List ManifestWork)
      → Result X.Error (Unit {0}) × Trace Call
  addon_run (err e) works = (err e, request list_addons ∷ [])
  addon_run (ok addons) (err e) =
      (err e, request (list_works addon_label) ∷ request list_addons ∷ [])
  addon_run (ok addons) (ok works) = (
    ok tt,
    print (
          G.print_tree (
            add_trees tools G (G.new (bytes "<ManagedCluster>"))
              (map (cluster_tree tools G o.addons addons works) clusters)))
        ∷ request (list_works addon_label)
        ∷ request list_addons
        ∷ [],
  )

  answered :
      (h : Trace Call) (addons : Result X.Error (List Addon))
      (works : Result X.Error (List ManifestWork))
      → server h list_addons ≡ addons
      → server (request list_addons ∷ h) (list_works addon_label) ≡ works
      → print_addon_tree X tools G server o clusters h ≡ addon_run addons works
  unfolding print_addon_tree call say ◌>>=◌
  answered h (err e) works first second = rw first refl
  answered h (ok addons) (err e) first second = rw (first, second) refl
  answered h (ok addons) (ok works) first second =
      rw (first, second, cluster_nodes-eq-cluster_tree tools G o.addons addons works clusters) refl

  -- `printAddonTree` lists the add-ons and then the works, and ends with the first error. Otherwise it prints,
  -- for each cluster in the order given, just those add-ons of the cluster that are named, or all if none
  -- is named, each once for every work of the cluster with its label, in the order of the add-ons and then
  -- of the works: an add-on without works is not shown.
  pub print_addon_tree-eq-addon_run :
      (h : Trace Call)
      → print_addon_tree X tools G server o clusters h
        ≡ addon_run
            (server h list_addons)
            (server (request list_addons ∷ h) (list_works addon_label))
  print_addon_tree-eq-addon_run h = answered h _ _ refl refl
