-- ===== src/Clusterset/Labels.antt =====
-- Which clusters `clusterset set` changes, and how.
use clusteradm.Base.{
  ◌≡◌, refl, inl, inr, ◌≢◌, false, String, ◌<>◌, List, [], ◌∷◌, text_eq, eq_iff, eq_refl, In,
  if◌then◌else◌, arith,
}
use clusteradm.Effect.{ok, Event, print, request, Trace, Server, say, call}
use clusteradm.Effect.Emits.{
  Emits, emits_rules, Emits-call, Emits-bind_of, Emits-then, Emits-say, Emits-if,
}
use clusteradm.Errors.{Errors}
use clusteradm.Hub.{
  Labels, Cluster, Call, Answer, get_cluster_set, get_cluster, update_cluster, is_write,
}
use clusteradm.Clusterset.Set.{
  Options, clusterset_label, label, set_label, relabel, move_cluster, move_clusters, set,
}

-- A label that was written is read back, and the other labels stay.
pub label-set_label :
    (key value other : String) (labels : Labels)
    → label other (set_label key value labels)
      ≡ (if text_eq key other then value else label other labels)
unfolding label set_label
label-set_label key value other [] = refl
label-set_label key value other ((k, v) ∷ labels) =
    ground (
      arith,
      eq_iff k key,
      eq_iff k other,
      eq_iff key other,
      label-set_label key value other labels,
    )

-- The cluster after a move: only its clusterset label is another.
pub record IsMoved (clusterset : String) (before after : Cluster) : Type 0 where
  pub name : after.name ≡ before.name
  pub left : label clusterset_label before.labels ≢ clusterset
  pub arrived : label clusterset_label after.labels ≡ clusterset
  pub others :
      (key : String) → key ≢ clusterset_label → label key after.labels ≡ label key before.labels

module _ (X : Errors) (server : Server Call Answer X.Error) (o : Options) where
  -- The server answered this cluster to a read by its name.
  abbrev pub WasRead : String → Cluster → Type 0
  WasRead name cluster = (h : Trace Call) × (server h (get_cluster name) ≡ ok cluster)

  abbrev pub Moves : Event Call → Type 0
  Moves (print line) = Unit
  Moves (request (update_cluster after)) =
      (name : String) × (before : Cluster) × In name o.clusters
      × WasRead name before
      × IsMoved o.clusterset before after
  Moves (request c) = is_write c ≡ false

  ne_of : {s t : String} → text_eq s t ≡ false → s ≢ t
  ne_of {s} {t} h e = ground (arith, eq_iff s t)

  moved :
      (cluster : Cluster)
      → text_eq (label clusterset_label cluster.labels) o.clusterset ≡ false
      → IsMoved o.clusterset cluster
          (record cluster { labels = set_label clusterset_label o.clusterset cluster.labels })
  moved cluster away = record {
    name = refl;
    left = ne_of away;
    arrived = ground (
      arith,
      label-set_label clusterset_label o.clusterset clusterset_label cluster.labels,
      eq_refl clusterset_label,
    );
    others = λ key other. ground (
      arith,
      label-set_label clusterset_label o.clusterset key cluster.labels,
      eq_iff clusterset_label key,
    );
  }

  relabel-Moves :
      (name : String) (cluster : Cluster)
      → In name o.clusters
      → WasRead name cluster
      → text_eq (label clusterset_label cluster.labels) o.clusterset ≡ false
      → Emits Moves (relabel X server o name (label clusterset_label cluster.labels) cluster)
  unfolding relabel
  relabel-Moves name cluster i r away =
      let after : Cluster = record cluster {
        labels = set_label clusterset_label o.clusterset cluster.labels;
      } in
      Emits-then _ _
        (Emits-call {P = Moves} server (update_cluster after)
          (name, cluster, i, r, moved cluster away))
        (Emits-say _ tt)

  move_cluster-Moves :
      (name : String) (cluster : Cluster)
      → In name o.clusters
      → WasRead name cluster
      → Emits Moves (move_cluster X server o name cluster)
  unfolding move_cluster
  move_cluster-Moves name cluster i r =
      let old = label clusterset_label cluster.labels in
      let line = "Cluster " <> name <> " is already in Clusterset " <> o.clusterset <> "\n" in
      Emits-if (text_eq old o.clusterset) (say line) (relabel X server o name old cluster)
        (λ _. Emits-say line tt) (λ away. relabel-Moves name cluster i r away)

  move_clusters-Moves :
      (names : List String)
      → ((name : String) → In name names → In name o.clusters)
      → Emits Moves (move_clusters X server o names)
  unfolding move_clusters
  move_clusters-Moves [] sub = search emits_rules
  move_clusters-Moves (name ∷ names) sub =
      Emits-bind_of _ _ (Emits-call {P = Moves} server (get_cluster name) refl) λ cluster h e.
        Emits-then _ _ (move_cluster-Moves name cluster (sub name (inl refl)) (h, unfold call in e))
          (move_clusters-Moves names (λ n i. sub n (inr i)))

  -- `clusterset set` updates only clusters that are named in --clusters, that it has read, and that are
  -- not yet in the set. The update puts the cluster into the set and leaves its name and its other labels
  -- as they were read. Nothing else is changed.
  pub set-Moves : Emits Moves (set X server o)
  unfolding set
  set-Moves =
      Emits-then _ _ (Emits-call {P = Moves} server (get_cluster_set o.clusterset) refl)
        (move_clusters-Moves o.clusters (λ name i. i))
