-- ===== src/Addon/Disable/Laws.antt =====
-- Which add-ons `addon disable` deletes.
use clusteradm.Base.{
  ◌≡◌, refl, ◌⊎◌, inl, inr, true, false, String, List, [], ◌∷◌, In, of_All, subst,
}
use clusteradm.Effect.{
  Result, ok, err, Event, print, request, Trace, Server, pure, fail, call, ◌>>◌,
}
use clusteradm.Effect.Emits.{
  Emits, Emits-pure, Emits-fail, Emits-say, Emits-if, Emits-call, Emits-attempt, Emits-bind,
  Emits-bind_of, Emits-then,
}
use clusteradm.Effect.Sends.{
  SendsIfOk, Sends-call, Sends-attempt, Sends-bind, SendsIfOk-Sends, SendsIfOk-then_left,
  SendsIfOk-then_right,
}
use clusteradm.Effect.IfOk.{Gives, Gives-pure, Gives-if, Gives-bind_of}
use clusteradm.Errors.{Errors}
use clusteradm.Hub.{Cluster, Call, Answer, list_clusters, delete_addon, is_write}
use clusteradm.Addon.{IsSorter}
use clusteradm.Addon.Found.{WasFound, get_clusters-WasFound, get_clusters-Emits}
use clusteradm.Addon.Disable.{
  Options, names_of, deleted, delete_one, delete_in, delete_addons, run_with_client, selected, run,
}

-- The hub is changed only by deletions of add-ons in clusters that satisfy `P`.
abbrev pub Deletes : (String → String → Type 0) → Event Call → Type 0
Deletes P (print line) = Unit
Deletes P (request (delete_addon cluster addon)) = P cluster addon
Deletes P (request c) = is_write c ≡ false

module _ (X : Errors) (server : Server Call Answer X.Error) where
  module _ (P : String → String → Type 0) where
    deleted-Deletes :
        (addon cluster : String) (r : Result X.Error (Unit {0}))
        → Emits (Deletes P) (deleted X server addon cluster r)
    unfolding deleted
    deleted-Deletes addon cluster (ok _) = Emits-say _ tt
    deleted-Deletes addon cluster (err e) =
        Emits-if (X.is_not_found e) _ (fail e) (λ _. Emits-say _ tt) (λ _. Emits-fail e)

    delete_one-Deletes :
        (addon cluster : String)
        → P cluster addon
        → Emits (Deletes P) (delete_one X server addon cluster)
    unfolding delete_one
    delete_one-Deletes addon cluster p =
        Emits-bind _ _
          (Emits-attempt _ (Emits-call {P = Deletes P} server (delete_addon cluster addon) p))
          (λ r. deleted-Deletes addon cluster r)

    delete_in-Deletes :
        (addon : String) (clusters : List String)
        → ((cluster : String) → In cluster clusters → P cluster addon)
        → Emits (Deletes P) (delete_in X server addon clusters)
    unfolding delete_in
    delete_in-Deletes addon [] p = Emits-pure tt
    delete_in-Deletes addon (cluster ∷ clusters) p =
        Emits-then _ _ (delete_one-Deletes addon cluster (p cluster (inl refl)))
          (delete_in-Deletes addon clusters (λ c i. p c (inr i)))

    delete_addons-Deletes :
        (addons clusters : List String)
        → ((addon cluster : String) → In addon addons → In cluster clusters → P cluster addon)
        → Emits (Deletes P) (delete_addons X server addons clusters)
    unfolding delete_addons
    delete_addons-Deletes [] clusters p = Emits-pure tt
    delete_addons-Deletes (addon ∷ addons) clusters p =
        Emits-then _ _ (delete_in-Deletes addon clusters (λ c i. p addon c (inl refl) i))
          (delete_addons-Deletes addons clusters (λ a c i j. p a c (inr i) j))

    run_with_client-Deletes :
        (addons clusters : List String)
        → ((addon cluster : String)
            → In addon addons
            → In cluster clusters
            → ((c : String) → In c clusters → WasFound X server c)
            → P cluster addon)
        → Emits (Deletes P) (run_with_client X server addons clusters)
    unfolding run_with_client ◌>>◌
    run_with_client-Deletes addons clusters p =
        Emits-bind_of _ _ (get_clusters-Emits X server (Deletes P) (λ name. refl) clusters) λ a h e.
          delete_addons-Deletes addons clusters λ addon cluster i j.
            p addon cluster i j
              (λ c k. of_All _ c clusters ((get_clusters-WasFound X server clusters).at h a e) k)

  -- A cluster that the options select: any that the hub listed, or one that is named.
  abbrev pub IsSelected : Options → String → Type 0
  IsSelected o cluster =
      ((o.all_clusters ≡ true)
        × ((h : Trace Call) × (items : List Cluster) × (server h list_clusters ≡ ok items)
            × In cluster (names_of items)))
      ⊎ ((o.all_clusters ≡ false) × In cluster o.clusters)

  -- The hub has answered a read of each cluster that the options select: of each of an answer to the list of
  -- the clusters, or of each that is named.
  abbrev pub AllFound : Options → Type 0
  AllFound o =
      ((o.all_clusters ≡ true)
        × ((h : Trace Call) × (items : List Cluster) × (server h list_clusters ≡ ok items)
            × ((cluster : String) → In cluster (names_of items) → WasFound X server cluster)))
      ⊎ ((o.all_clusters ≡ false)
          × ((cluster : String) → In cluster o.clusters → WasFound X server cluster))

  -- What `addon disable` may delete.
  abbrev pub MayDisable : Options → String → String → Type 0
  MayDisable o cluster addon =
      In addon o.names × IsSelected o cluster × WasFound X server cluster × AllFound o

  module _ (to_set : List String → List String) (set : IsSorter to_set) where
    selected-IsSelected :
        (o : Options)
        → Gives
            (λ clusters.
              ((cluster : String) → In cluster clusters → IsSelected o cluster)
              × (((c : String) → In c clusters → WasFound X server c) → AllFound o))
            (selected X server to_set o)
    unfolding selected
    selected-IsSelected o =
        Gives-if o.all_clusters _ (pure (to_set o.clusters))
          (λ all. Gives-bind_of _ _ λ items h e.
            let answer : server h list_clusters ≡ ok items = unfold call in e in
            Gives-pure (to_set (names_of items)) (
              λ cluster i. inl (all, (h, items, answer, (set.same cluster (names_of items)).0 i)),
              λ found. inl (
                all,
                (
                  h,
                  items,
                  answer,
                  λ cluster i. found cluster ((set.same cluster (names_of items)).1 i),
                ),
              ),
            ))
          (λ some. Gives-pure (to_set o.clusters) (
            λ cluster i. inr (some, (set.same cluster o.clusters).0 i),
            λ found. inr (some, λ cluster i. found cluster ((set.same cluster o.clusters).1 i)),
          ))

    selected-Deletes :
        (P : String → String → Type 0) (o : Options)
        → Emits (Deletes P) (selected X server to_set o)
    unfolding selected
    selected-Deletes P o =
        Emits-if o.all_clusters _ (pure (to_set o.clusters))
          (λ _.
            Emits-bind _ _ (Emits-call {P = Deletes P} server list_clusters refl)
              (λ items. Emits-pure _))
          (λ _. Emits-pure _)

    -- `addon disable` changes the hub only by deletions of named add-ons in selected clusters: the named
    -- ones, or with --all-clusters those that the hub has listed. It deletes nothing unless the hub answers
    -- a read of each selected cluster, not only of those deleted in so far.
    pub run-MayDisable : (o : Options) → Emits (Deletes (MayDisable o)) (run X server to_set o)
    unfolding run
    run-MayDisable o = Emits-bind_of _ _ (selected-Deletes (MayDisable o) o) λ clusters h e.
        let (each, all) = (selected-IsSelected o).at h clusters e in
        run_with_client-Deletes (MayDisable o) (to_set o.names) clusters λ addon cluster i j found.
          ((set.same addon o.names).0 i, each cluster j, found cluster j, all found)

  delete_one-SendsIfOk :
      (addon cluster : String)
      → SendsIfOk (request (delete_addon cluster addon)) (delete_one X server addon cluster)
  unfolding delete_one
  delete_one-SendsIfOk addon cluster =
      SendsIfOk-Sends _
        (Sends-bind _ _ (Sends-attempt _ (Sends-call server (delete_addon cluster addon))))

  delete_in-SendsIfOk :
      (addon cluster : String) (clusters : List String)
      → In cluster clusters
      → SendsIfOk (request (delete_addon cluster addon)) (delete_in X server addon clusters)
  unfolding delete_in
  delete_in-SendsIfOk addon cluster [] i = elim i [ ]
  delete_in-SendsIfOk addon cluster (c ∷ clusters) (inl e) = SendsIfOk-then_left _ _ (
      subst (λ d. SendsIfOk (request (delete_addon cluster addon)) (delete_one X server addon d)) e
        (delete_one-SendsIfOk addon cluster))
  delete_in-SendsIfOk addon cluster (c ∷ clusters) (inr i) =
      SendsIfOk-then_right _ _ (delete_in-SendsIfOk addon cluster clusters i)

  delete_addons-SendsIfOk :
      (addon cluster : String) (addons clusters : List String)
      → In addon addons
      → In cluster clusters
      → SendsIfOk (request (delete_addon cluster addon)) (delete_addons X server addons clusters)
  unfolding delete_addons
  delete_addons-SendsIfOk addon cluster [] clusters i j = elim i [ ]
  delete_addons-SendsIfOk addon cluster (a ∷ addons) clusters (inl e) j = SendsIfOk-then_left _ _ (
      subst (λ d. SendsIfOk (request (delete_addon cluster addon)) (delete_in X server d clusters))
        e (delete_in-SendsIfOk addon cluster clusters j))
  delete_addons-SendsIfOk addon cluster (a ∷ addons) clusters (inr i) j =
      SendsIfOk-then_right _ _ (delete_addons-SendsIfOk addon cluster addons clusters i j)

  -- If the run of `addon disable` over some add-ons and clusters succeeds, it has asked for the deletion
  -- of each of the add-ons in each of the clusters.
  pub run_with_client-SendsIfOk :
      (addon cluster : String) (addons clusters : List String)
      → In addon addons
      → In cluster clusters
      → SendsIfOk (request (delete_addon cluster addon)) (run_with_client X server addons clusters)
  unfolding run_with_client
  run_with_client-SendsIfOk addon cluster addons clusters i j =
      SendsIfOk-then_right _ _ (delete_addons-SendsIfOk addon cluster addons clusters i j)
