-- ===== src/Work/Create/Laws.antt =====
-- What `create work` accepts and what it changes.
use clusteradm.Base.{
  ◌≡◌, refl, inl, inr, true, not, String, List, [], ◌∷◌, In, split, text_eq, eq_iff, arith,
}
use clusteradm.Effect.{Result, ok, err, Event, request, Trace, Server, pure, fail, call, attempt}
use clusteradm.Effect.Emits.{
  Emits, emits_rules, Emits-pure, Emits-fail, Emits-say, Emits-if, Emits-call, Emits-attempt,
  Emits-bind, Emits-bind_of, Emits-then,
}
use clusteradm.Effect.Runs.{call_answer, call_ok}
use clusteradm.Effect.IfOk.{Gives, Gives-pure, Gives-fail, Gives-if, Gives-bind_of}
use clusteradm.Errors.{Errors}
use clusteradm.Work.{
  Work, Call, Answer, read_manifests, list_works, get_placement, track_placement, get_work,
  create_work, update_work, delete_work,
}
use clusteradm.Work.Create.{
  Options, tracked, placement_clusters, clusters_of, get_clusters, deletion_failed, delete_one,
  delete_works, overwrite_work, create_new, create_or_overwrite, apply_one, apply_works, run,
}

module _ (X : Errors) (server : Server Call Answer X.Error) (o : Options) where
  -- The server answered that the cluster has no work of the name.
  abbrev pub IsMissing : String → Type 0
  IsMissing cluster =
      (h : Trace Call) × (e : X.Error) × (server h (get_work cluster o.work_name) ≡ err e)
      × (X.is_not_found e ≡ true)

  -- The manifests that were read from the files.
  abbrev pub WasRead : List String → Type 0
  WasRead manifests = (h : Trace Call) × (server h read_manifests ≡ ok manifests)

  -- The placement of the options was read, and the tracker of its decisions then answered that the cluster
  -- is one of those to remove.
  abbrev pub IsRemoved : String → Type 0
  IsRemoved cluster =
      (namespace : String) × (name : String) × (h : Trace Call) × (h' : Trace Call) × (split b'/'
          o.placement
        ≡ namespace ∷ name ∷ [])
      × (server h (get_placement namespace name) ≡ ok tt)
      × ((existing : List String) × (added : List String) × (removed : List String) × (server h'
              (track_placement namespace name existing)
            ≡ ok (added, removed))
          × In cluster removed)

  -- What `create work` may change.
  abbrev pub Changes : Event Call → Type 0
  Changes (request (create_work work)) =
      IsMissing work.namespace
      × WasRead work.manifests
      × (work.name ≡ o.work_name)
      × (work.finalizers ≡ [])
  Changes (request (update_work work)) =
      (o.overwrite ≡ true)
      × WasRead work.manifests
      × ((cluster : String) × (before : Work) × (h : Trace Call) × (server h
              (get_work cluster o.work_name)
            ≡ ok before)
          × (work ≡ record before { manifests = work.manifests }))
  Changes (request (delete_work cluster name)) =
      (o.overwrite ≡ true) × (name ≡ o.work_name) × (o.cluster ≡ "") × IsRemoved cluster
  Changes _ = Unit

  call-Changes : (c : Call) → Changes (request c) → Emits Changes (call server c)
  call-Changes c p = Emits-call {P = Changes} server c p

  tracked-Changes :
      (namespace name : String) (existing : List String) (r : Result X.Error (Unit {0}))
      → Emits Changes (tracked X server namespace name existing r)
  unfolding tracked
  tracked-Changes namespace name existing (err e) = search emits_rules
  tracked-Changes namespace name existing (ok _) =
      call-Changes (track_placement namespace name existing) tt

  placement_clusters-Changes :
      (placement : String) (existing parts : List String)
      → Emits Changes (placement_clusters X server placement existing parts)
  unfolding placement_clusters
  placement_clusters-Changes placement existing [] = search emits_rules
  placement_clusters-Changes placement existing (a ∷ []) = search emits_rules
  placement_clusters-Changes placement existing (a ∷ b ∷ []) =
      Emits-bind _ _ (Emits-attempt _ (call-Changes (get_placement a b) tt))
        (λ r. tracked-Changes a b existing r)
  placement_clusters-Changes placement existing (a ∷ b ∷ c ∷ more) = search emits_rules

  get_clusters-Changes : Emits Changes (get_clusters X server o)
  unfolding get_clusters clusters_of
  get_clusters-Changes = Emits-bind _ _ (call-Changes list_works tt) (λ works.
      Emits-if (text_eq o.cluster "") _ (pure (o.cluster ∷ [], []))
        (λ _. placement_clusters-Changes _ _ _) (λ _. Emits-pure _))

  abbrev AreRemoved : List String × List String → Type 0
  AreRemoved r = (cluster : String) → In cluster r.1 → (o.cluster ≡ "") × IsRemoved cluster

  tracked-AreRemoved :
      (namespace name : String) (existing : List String) (h : Trace Call)
      (r : Result X.Error (Unit {0}))
      → o.cluster ≡ ""
      → split b'/' o.placement ≡ namespace ∷ name ∷ []
      → server h (get_placement namespace name) ≡ r
      → Gives AreRemoved (tracked X server namespace name existing r)
  unfolding tracked
  tracked-AreRemoved namespace name existing h (err e) placed parts read = Gives-fail _
  tracked-AreRemoved namespace name existing h (ok _) placed parts read = record {
    at = λ h' (added, removed) e cluster i. (
      placed,
      (
        namespace,
        name,
        h,
        h',
        parts,
        read,
        (
          existing,
          added,
          removed,
          call_ok server (track_placement namespace name existing) h' (added, removed) e,
          i,
        ),
      ),
    );
  }

  placement_clusters-AreRemoved :
      (existing parts : List String)
      → o.cluster ≡ ""
      → split b'/' o.placement ≡ parts
      → Gives AreRemoved (placement_clusters X server o.placement existing parts)
  unfolding placement_clusters
  placement_clusters-AreRemoved existing [] placed e = Gives-fail _
  placement_clusters-AreRemoved existing (a ∷ []) placed e = Gives-fail _
  placement_clusters-AreRemoved existing (a ∷ b ∷ []) placed e =
      Gives-bind_of (attempt (call server (get_placement a b))) (tracked X server a b existing)
        (λ r h read.
          tracked-AreRemoved a b existing h r placed e
            (call_answer server (get_placement a b) h r read))
  placement_clusters-AreRemoved existing (a ∷ b ∷ c ∷ more) placed e = Gives-fail _

  -- With --clusters nothing is to be deleted.
  get_clusters-AreRemoved : Gives AreRemoved (get_clusters X server o)
  unfolding get_clusters clusters_of
  get_clusters-AreRemoved = Gives-bind_of _ _ λ works h e.
      Gives-if (text_eq o.cluster "") _ (pure (o.cluster ∷ [], []))
        (λ none. placement_clusters-AreRemoved _ _ ((eq_iff o.cluster "").0 none) refl)
        (λ _. Gives-pure _ (λ c i. elim i [ ]))

  deletion_failed-Changes :
      (cluster : String) (r : Result X.Error (Unit {0}))
      → Emits Changes (deletion_failed X server o cluster r)
  unfolding deletion_failed
  deletion_failed-Changes cluster (ok _) = search emits_rules
  deletion_failed-Changes cluster (err e) = Emits-say _ tt

  delete_one-Changes :
      (cluster : String)
      → o.overwrite ≡ true
      → (o.cluster ≡ "") × IsRemoved cluster
      → Emits Changes (delete_one X server o cluster)
  unfolding delete_one
  delete_one-Changes cluster over (placed, removed) =
      Emits-bind _ _
        (Emits-attempt _
          (call-Changes (delete_work cluster o.work_name) (over, refl, placed, removed)))
        λ r. Emits-then _ _ (deletion_failed-Changes cluster r) (Emits-say _ tt)

  delete_works-Changes :
      (clusters : List String)
      → ((cluster : String) → In cluster clusters → (o.cluster ≡ "") × IsRemoved cluster)
      → Emits Changes (delete_works X server o clusters)
  unfolding delete_works
  delete_works-Changes [] p = Emits-pure tt
  delete_works-Changes (cluster ∷ clusters) removed =
      Emits-then _ _
        (Emits-if o.overwrite (delete_one X server o cluster) (pure tt)
          (λ over. delete_one-Changes cluster over (removed cluster (inl refl)))
          (λ _. Emits-pure tt))
        (delete_works-Changes clusters (λ c i. removed c (inr i)))

  module _ (manifests : List String) (was_read : WasRead manifests) where
    create_or_overwrite-Changes :
        (cluster : String) (h : Trace Call) (r : Result X.Error Work)
        → server h (get_work cluster o.work_name) ≡ r
        → Emits Changes (create_or_overwrite X server o manifests cluster r)
    unfolding create_or_overwrite overwrite_work create_new
    create_or_overwrite-Changes cluster h (ok work) e =
        Emits-if (not o.overwrite) _ _ (λ _. Emits-say _ tt)
          λ over.
            Emits-then _ _
              (call-Changes (update_work (record work { manifests = manifests }))
                (ground arith, was_read, (cluster, work, h, e, refl)))
              (Emits-say _ tt)
    create_or_overwrite-Changes cluster h (err x) e =
        Emits-if (X.is_not_found x) _ (fail x)
          (λ missing.
            Emits-then _ _
              (call-Changes
                (create_work (record {
                  name = o.work_name;
                  namespace = cluster;
                  finalizers = [];
                  manifests = manifests;
                }))
                ((h, x, e, missing), was_read, refl, refl))
              (Emits-say _ tt))
          (λ _. Emits-fail x)

    apply_works-Changes :
        (clusters : List String) → Emits Changes (apply_works X server o manifests clusters)
    unfolding apply_works apply_one
    apply_works-Changes [] = Emits-pure tt
    apply_works-Changes (cluster ∷ clusters) =
        Emits-then _ _
          (Emits-bind_of _ _ (Emits-attempt _ (call-Changes (get_work cluster o.work_name) tt))
            λ r h e.
              create_or_overwrite-Changes cluster h r
                (call_answer server (get_work cluster o.work_name) h r e))
          (apply_works-Changes clusters)

  -- `create work` creates a work only in a cluster that has answered that it has none of the name, with
  -- the manifests that were read. Only with --overwrite it updates a work, in which it replaces nothing
  -- but the manifests, and deletes a work of the name; it deletes only if no cluster but a placement is
  -- given and was read, and only in clusters that the tracker of its decisions then answered as removed.
  pub run-Changes : Emits Changes (run X server o)
  unfolding run
  run-Changes = Emits-bind_of _ _ (call-Changes read_manifests tt) λ manifests h was_read.
      Emits-bind_of _ _ get_clusters-Changes λ r h' got.
        Emits-then _ _ (delete_works-Changes r.1 (get_clusters-AreRemoved.at h' r got))
          (apply_works-Changes manifests (h, unfold call in was_read) r.0)
