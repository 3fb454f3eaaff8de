-- ===== src/Get/Addon.antt =====
-- pkg/cmd/get/addon/exec.go, with `PrintWorkDetail` of pkg/helpers/printer/tree.go: the add-ons of the
-- managed clusters with the state of their works.
pub mod Laws
mod Tests
use clusteradm.Base.{
  Bytes, bytes, bytes_eq, Bool, true, false, ◌&&◌, ◌||◌, Option, none, some, List, [], ◌∷◌, ◌++◌,
  map, if◌then◌else◌,
}
use clusteradm.Effect.{Prog, Server, pure, say, call, ◌>>=◌}
use clusteradm.Errors.{Errors}
use clusteradm.Printer.TreePrinter.{Gotree}
use clusteradm.Get.{Condition, is_empty}
use clusteradm.Get.GoMap.{value_at, slice_at, append_at}

-- The condition of one manifest: the names of its resource, and its conditions.
pub record ManifestCondition : Type 0 where
  pub group : Bytes
  pub resource : Bytes
  pub name : Bytes
  pub namespace : Bytes
  pub conditions : List Condition

pub record ManifestWork : Type 0 where
  pub namespace : Bytes
  pub labels : List (Bytes × Bytes)
  pub manifests : List ManifestCondition

pub record Addon : Type 0 where
  pub name : Bytes
  pub namespace : Bytes
  pub conditions : List Condition

-- What the command uses of the other projects: the colours, `meta.FindStatusCondition`, the text of a
-- `schema.GroupResource`, the order in which `range` visits a map, and the list of a `sets.String`.
pub record Tools : Type 0 where
  pub blue : Bytes → Bytes
  pub bold : Bytes → Bytes
  pub red : Bytes → Bytes
  pub find_status_condition : List Condition → Bytes → Option Condition
  pub group_resource : Bytes → Bytes → Bytes
  pub visit : List (Bytes × List ManifestCondition) → List (Bytes × List ManifestCondition)
  pub set_list : List Bytes → List Bytes

pub data Call : Type 0 where
  list_clusters list_addons : Call
  list_works : Bytes → Call

abbrev pub Answer : Call → Type 0
Answer list_clusters = List Bytes
Answer list_addons = List Addon
Answer (list_works label_selector) = List ManifestWork

pub record Options : Type 0 where
  pub clusters : List Bytes
  pub addons : List Bytes

abbrev pub addon_label : Bytes
addon_label = bytes "open-cluster-management.io/addon-name"

-- `contains`
abbrev pub has : List Bytes → Bytes → Bool
has [] target = false
has (v ∷ values) target = let rest = has values target in bytes_eq target v || rest

-- `shouldShow`
abbrev pub should_show : List Bytes → Addon → Bool
should_show [] addon = true
should_show (a ∷ selecting) addon = has (a ∷ selecting) addon.name

-- `addonByCluster` after the loop over the add-ons
unfoldable pub by_cluster :
    List Bytes → List Addon → List (Bytes × List Addon) → List (Bytes × List Addon)
unfolding append_at
by_cluster selecting [] m = m
by_cluster selecting (addon ∷ addons) m =
    by_cluster selecting addons
      (if should_show selecting addon then append_at addon.namespace addon m else m)

-- `work.Labels["open-cluster-management.io/addon-name"]`
abbrev pub addon_of : ManifestWork → Bytes
addon_of work = elim (value_at addon_label work.labels) [ none ↦ [] | some name ↦ name ]

module _ (tools : Tools) (G : Gotree) where
  -- A tree after `Add` or `AddTree` of each of some trees, one after the other.
  abbrev pub add_trees : G.Tree → List G.Tree → G.Tree
  add_trees tree [] = tree
  add_trees tree (sub ∷ subs) = add_trees (G.add_tree tree sub) subs

  -- `getManifestResourceStatus`
  abbrev pub manifest_status : ManifestCondition → Bytes
  manifest_status manifest =
      elim (tools.find_status_condition manifest.conditions (bytes "Applied")) [
        | none ↦ bytes "unknown"
        | some c ↦
            if bytes_eq c.status (bytes "True")
            then bytes "applied"
            else tools.red (bytes "not-applied")
      ]

  -- The line of one manifest in `PrintWorkDetail`
  abbrev pub manifest_node : ManifestCondition → G.Tree
  manifest_node manifest =
      let identifier : Bytes =
        if is_empty manifest.namespace
        then manifest.name
        else manifest.namespace ++ b'/' ∷ manifest.name in
      G.new (identifier ++ bytes " (" ++ manifest_status manifest ++ bytes ")")

  -- `condByRs` after the loop over the manifests
  unfoldable pub by_resource :
      List ManifestCondition
      → List (Bytes × List ManifestCondition)
      → List (Bytes × List ManifestCondition)
  unfolding append_at
  by_resource [] m = m
  by_resource (manifest ∷ manifests) m =
      by_resource manifests
        (append_at (tools.group_resource manifest.group manifest.resource) manifest m)

  -- `PrintWorkDetail`
  unfoldable pub print_work_detail : G.Tree → ManifestWork → G.Tree
  unfolding by_resource
  print_work_detail tree work = add_trees tree (
      map (λ group. add_trees (G.new group.0) (map manifest_node group.1))
        (tools.visit (by_resource work.manifests [])))

  -- The closure `sanitize` of `printAddonStatus`
  abbrev pub sanitize : Option Condition → Bytes
  sanitize none = bytes "unknown"
  sanitize (some c) =
      if bytes_eq c.status (bytes "True") then bytes "true" else tools.red (bytes "false")

  -- `printAddonStatus`
  abbrev pub print_addon_status : G.Tree → Addon → G.Tree
  print_addon_status tree addon = add_trees tree (
      map
        (λ kind.
          G.new
            (kind ++ bytes " -> " ++ sanitize (tools.find_status_condition addon.conditions kind)))
        (bytes "Available" ∷ bytes "ManifestApplied" ∷ bytes "RegistrationApplied" ∷ []))

  -- The tree of an add-on with one of its works
  abbrev pub addon_node : Addon → ManifestWork → G.Tree
  addon_node addon work = add_trees (G.new (tools.bold addon.name)) (
      print_addon_status (G.new (bytes "<Status>")) addon
      ∷ print_work_detail (G.new (bytes "<ManifestWork>")) work
      ∷ [])

  -- The loop over the works
  unfoldable pub work_nodes : Bytes → Addon → List ManifestWork → List G.Tree
  work_nodes cluster addon [] = []
  work_nodes cluster addon (work ∷ works) =
      let rest = work_nodes cluster addon works in
      if bytes_eq cluster work.namespace && bytes_eq (addon_of work) addon.name
      then addon_node addon work ∷ rest
      else rest

  -- The loop over the add-ons of a cluster
  unfoldable pub addon_nodes : Bytes → List ManifestWork → List Addon → List G.Tree
  unfolding work_nodes
  addon_nodes cluster works [] = []
  addon_nodes cluster works (addon ∷ addons) =
      work_nodes cluster addon works ++ addon_nodes cluster works addons

  -- The loop over the clusters; a cluster without add-ons has no children.
  unfoldable pub cluster_nodes :
      List (Bytes × List Addon) → List ManifestWork → List Bytes → List G.Tree
  unfolding addon_nodes
  cluster_nodes addons works [] = []
  cluster_nodes addons works (cluster ∷ clusters) =
      add_trees (G.new (tools.blue cluster)) (elim (value_at cluster addons) [
        | none ↦ []
        | some shown ↦ addon_nodes cluster works shown
      ])
      ∷ cluster_nodes addons works clusters

module _ (X : Errors) (tools : Tools) (G : Gotree) (server : Server Call Answer X.Error) where
  -- `printAddonTree`
  unfoldable pub print_addon_tree : Options → List Bytes → Prog Call X.Error (Unit {0})
  unfolding by_cluster cluster_nodes
  print_addon_tree o clusters = call server list_addons >>= λ addons.
      call server (list_works addon_label) >>= λ works. say (
        G.print_tree (
          add_trees tools G (G.new (bytes "<ManagedCluster>"))
            (cluster_nodes tools G (by_cluster o.addons addons []) works clusters)))

  -- The clusters of `run`
  unfoldable pub the_clusters : Options → Prog Call X.Error (List Bytes)
  the_clusters o = elim o.clusters [
    | [] ↦ call server list_clusters >>= λ names. pure (tools.set_list names)
    | c ∷ cs ↦ pure (tools.set_list (c ∷ cs))
  ]

  -- `run`
  unfoldable pub run : Options → Prog Call X.Error (Unit {0})
  unfolding the_clusters print_addon_tree
  run o = the_clusters o >>= print_addon_tree o
