-- ===== src/Get/Clusterset/Laws.antt =====
-- What `get clustersets` shows of each cluster set, as a tree and as a table.
use clusteradm.Base.{
  ◌≡◌, refl, sym, ap, ◌∙◌, subst, Bytes, bytes, bytes_eq, bytes_eq_sound, bytes_eq_refl, some, List,
  [], ◌∷◌, ◌++◌, map, select, In, In-map, inl, inr, if◌then◌else◌, arith, Bool-cases,
}
use mathlib.Core.List.{append-nil, append_assoc}
use clusteradm.Effect.{Result, ok, err, Trace, Server, pure, call, ◌>>=◌}
use clusteradm.Errors.{Errors}
use clusteradm.Printer.Trie.{get, default_segmenter}
use clusteradm.Printer.TreePrinter.{TreePrinter}
use clusteradm.Printer.TreePrinter.Abstract.{Map, Refines}
use clusteradm.Printer.PrinterOption.{panicked, Table}
use clusteradm.Get.{Value, text, Tools, stop_by, join, add_items}
use clusteradm.Get.GoMap.{put_at, value_at-put_at, slice_at}
use clusteradm.Get.Shown.{VisitsAll, IsListed, get-add_items}
use clusteradm.Get.Clusterset.{
  ManagedClusterSet, Binding, Call, Answer, list_bindings, bind_one, bind_all, message_of, fields,
  cells, columns, convert_to_tree, convert_to_table,
}

-- The namespaces of the bindings of a cluster set, in the order of the bindings.
abbrev pub bound_to : Bytes → List Binding → List Bytes
bound_to set bindings = map (λ b. b.namespace) (select (λ b. bytes_eq b.cluster_set set) bindings)

slice_at-bind_one :
    (k : Bytes) (b : Binding) (m : List (Bytes × List Bytes))
    → slice_at k (bind_one b m)
      ≡ (if bytes_eq b.cluster_set k then slice_at k m ++ b.namespace ∷ [] else slice_at k m)
slice_at-bind_one k b m =
    let s = b.cluster_set in
    ground (
      arith,
      value_at-put_at s k (slice_at s m ++ b.namespace ∷ []) m,
      value_at-put_at s k [] m,
      value_at-put_at s s [] m,
      value_at-put_at s k ([] ++ b.namespace ∷ []) (put_at s [] m),
      bytes_eq_refl s,
      bytes_eq_sound s k,
    )

slice_at-bind_all :
    (k : Bytes) (bs : List Binding) (m : List (Bytes × List Bytes))
    → slice_at k (bind_all bs m) ≡ slice_at k m ++ bound_to k bs
unfolding bind_all select
slice_at-bind_all k [] m = sym (append-nil (slice_at k m))
slice_at-bind_all k (b ∷ bs) m = elim (Bool-cases (bytes_eq b.cluster_set k)) [
  | inl same ↦
      slice_at-bind_all k bs (bind_one b m)
      ∙ rw (slice_at-bind_one k b m, same)
          (append_assoc (slice_at k m) (b.namespace ∷ []) (bound_to k bs))
  | inr differ ↦ slice_at-bind_all k bs (bind_one b m) ∙ rw (slice_at-bind_one k b m, differ) refl
]

module _ (X : Errors) (tools : Tools) (server : Server Call Answer X.Error) where
  -- What the two converters answer for a list of cluster sets, by the answer to the list of bindings.
  abbrev pub Shows :
      List ManagedClusterSet
      → TreePrinter Value
      → Trace Call
      → Result X.Error (List Binding)
      → Type 0
  Shows sets p h (err e) =
      ((convert_to_tree X tools server sets p h).0 ≡ err (panicked e))
      × ((convert_to_table X tools server sets h).0 ≡ err (panicked e))
  Shows sets p h (ok bindings) =
      (tree : TreePrinter Value) × (table : Table Value) × ((convert_to_tree X tools server sets p
          h).0
        ≡ ok tree)
      × ((convert_to_table X tools server sets h).0 ≡ ok table)
      × ((set : ManagedClusterSet)
          → In set sets
          → let bound = join (bytes ",") (bound_to set.name bindings) in
            let status =
              message_of (tools.find_status_condition set.conditions (bytes "ClusterSetEmpty")) in
            (get default_segmenter (set.name ++ bytes ".BoundNamespace") tree.tree
              ≡ some (some (text bound)))
            × (get default_segmenter (set.name ++ bytes ".Status") tree.tree
                ≡ some (some (text status)))
            × In (text set.name ∷ text bound ∷ text status ∷ []) table.rows)

  answered-Shows :
      VisitsAll tools.visit
      → (sets : List ManagedClusterSet) (p : TreePrinter Value) (m : Map Value) (h : Trace Call)
      → Refines p.tree m
      → IsListed (λ set. set.name) sets
      → (r : Result X.Error (List Binding)) → server h list_bindings ≡ r
      → Shows sets p h r
  unfolding convert_to_tree convert_to_table call ◌>>=◌ stop_by pure
  answered-Shows visits sets p m h refines l (err e) answer = (rw answer refl, rw answer refl)
  answered-Shows visits sets p m h refines l (ok bindings) answer =
      let names = bind_all bindings [] in
      let tree = add_items tools (λ set. set.name) (fields tools names) sets p in
      let shown =
        get-add_items tools (λ set. set.name) (fields tools names) visits (λ set. refl) sets p m
          refines l in
      (
        tree,
        record { columns = columns; rows = map (cells tools names) sets },
        rw answer refl,
        rw answer refl,
        λ set i.
            let bound = slice_at-bind_all set.name bindings [] in
            (
              shown set (bytes ".BoundNamespace") _ i (inl refl)
                  ∙ ap (λ s. some (some (text (join (bytes ",") s)))) bound,
              shown set (bytes ".Status") _ i (inr (inl refl)),
              subst
                  (λ s.
                    In
                      (text set.name
                        ∷ text (join (bytes ",") s)
                        ∷ text (
                            message_of (
                              tools.find_status_condition set.conditions (bytes "ClusterSetEmpty")))
                        ∷ [])
                      (map (cells tools names) sets))
                  bound (In-map (cells tools names) set sets i),
            ),
      )

  -- If `range` visits just the entries of a map and the names of the listed cluster sets are different and
  -- have no upper-case letters, then the two converters of `get clustersets` panic with the error when the
  -- bindings cannot be listed, and otherwise show the same of each cluster set, in the tree and in a row of
  -- the table: the namespaces of just those bindings that name it, in the order of the list and joined
  -- with commas, and the message of its condition.
  pub set_converters-Shows :
      VisitsAll tools.visit
      → (sets : List ManagedClusterSet) (p : TreePrinter Value) (m : Map Value) (h : Trace Call)
      → Refines p.tree m
      → IsListed (λ set. set.name) sets
      → Shows sets p h (server h list_bindings)
  set_converters-Shows visits sets p m h refines l =
      answered-Shows visits sets p m h refines l (server h list_bindings) refl
