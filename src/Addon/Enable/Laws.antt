-- ===== src/Addon/Enable/Laws.antt =====
-- What `addon enable` applies, and how it reads its annotations.
use clusteradm.Base.{
  ◌≡◌, refl, sym, ap, ◌∙◌, ◌⊎◌, ◌≢◌, inl, inr, Bool, false, String, List, [], ◌∷◌, ◌++◌, All, In,
  of_All, split, text_eq, if◌then◌else◌,
}
use clusteradm.Effect.{Result, ok, err, Event, print, request, Server, ◌>>◌}
use clusteradm.Effect.Emits.{
  Emits, Emits-pure, Emits-say, Emits-call, Emits-bind, Emits-bind_of, Emits-then, Emits-lift,
}
use clusteradm.Effect.Runs.{Result-cases, lift_answer}
use clusteradm.Errors.{Errors}
use clusteradm.Hub.{Labels, ClusterAddonInfo, Call, Answer, apply_addon, write_output, is_write}
use clusteradm.Clusterset.Set.{label, set_label}
use clusteradm.Clusterset.Labels.{label-set_label}
use clusteradm.Addon.{IsSorter}
use clusteradm.Addon.Found.{WasFound, get_clusters-WasFound, get_clusters-Emits}
use clusteradm.Addon.Enable.{
  Options, annotated, parse_annotations, info_with, new_cluster_addon_info, apply_one, apply_in,
  apply_addons, run_with_client, run,
}

-- The hub is changed only by the applier, with this dry-run flag and an add-on that satisfies `P`.
abbrev pub Applies : Bool → (ClusterAddonInfo → Type 0) → Event Call → Type 0
Applies dry_run P (print line) = Unit
Applies dry_run P (request (apply_addon dry info)) = (dry ≡ dry_run) × P info
Applies dry_run P (request c) = is_write c ≡ false

module _ (X : Errors) (o : Options) where
  -- The add-on that is applied for a cluster and a name.
  pub record IsInfo (cluster addon : String) (info : ClusterAddonInfo) : Type 0 where
    pub cluster_name : info.cluster_name ≡ cluster
    pub namespace : info.namespace ≡ o.namespace
    pub addon_name : info.addon_name ≡ addon
    pub annotations : parse_annotations X o.annotate [] ≡ ok info.annotations

  new_cluster_addon_info-IsInfo :
      (cluster addon : String) (info : ClusterAddonInfo)
      → new_cluster_addon_info X cluster o addon ≡ ok info
      → IsInfo cluster addon info
  unfolding new_cluster_addon_info info_with
  new_cluster_addon_info-IsInfo cluster addon info e =
      elim (Result-cases (parse_annotations X o.annotate [])) [
        | inl (annos, parsed) ↦
            let made : Path (Result X.Error ClusterAddonInfo)
                (ok (record {
                  cluster_name = cluster;
                  namespace = o.namespace;
                  addon_name = addon;
                  annotations = annos;
                }))
                (ok info) =
              rw parsed at e in
            let same : Path ClusterAddonInfo
                (record {
                  cluster_name = cluster;
                  namespace = o.namespace;
                  addon_name = addon;
                  annotations = annos;
                })
                info =
              cc in
            record {
              cluster_name = sym (ap (λ i. i.cluster_name) same);
              namespace = sym (ap (λ i. i.namespace) same);
              addon_name = sym (ap (λ i. i.addon_name) same);
              annotations = parsed ∙ ap (λ i. ok i.annotations) same;
            }
        | inr (x, failed) ↦ absurd (cc (rw failed at e))
      ]

  -- What `addon enable` may apply.
  abbrev pub MayApply : Server Call Answer X.Error → ClusterAddonInfo → Type 0
  MayApply server info =
      (cluster : String) × (addon : String) × IsInfo cluster addon info
      × In addon o.names
      × In cluster o.clusters
      × WasFound X server cluster

module _ (X : Errors) (server : Server Call Answer X.Error) (dry_run : Bool) (o : Options) where
  module _ (P : ClusterAddonInfo → Type 0) where
    apply_one-Applies :
        (addon cluster : String)
        → ((info : ClusterAddonInfo) → IsInfo X o cluster addon info → P info)
        → Emits (Applies dry_run P) (apply_one X server dry_run o addon cluster)
    unfolding apply_one
    apply_one-Applies addon cluster p = Emits-bind_of _ _ (Emits-lift _) λ info h e.
        Emits-bind _ _
          (Emits-call {P = Applies dry_run P} server (apply_addon dry_run info) (
            refl,
            p info (new_cluster_addon_info-IsInfo X o cluster addon info (lift_answer _ h info e)),
          ))
          (λ out. Emits-then _ _ (Emits-say _ tt) (Emits-pure out))

    apply_in-Applies :
        (addon : String) (clusters output : List String)
        → ((cluster : String) (info : ClusterAddonInfo)
            → In cluster clusters
            → IsInfo X o cluster addon info
            → P info)
        → Emits (Applies dry_run P) (apply_in X server dry_run o addon clusters output)
    unfolding apply_in
    apply_in-Applies addon [] output p = Emits-pure output
    apply_in-Applies addon (cluster ∷ clusters) output p =
        Emits-bind _ _ (apply_one-Applies addon cluster (λ info. p cluster info (inl refl)))
          (λ out. apply_in-Applies addon clusters (output ++ out) (λ c info i. p c info (inr i)))

    apply_addons-Applies :
        (addons clusters output : List String)
        → ((addon cluster : String) (info : ClusterAddonInfo)
            → In addon addons
            → In cluster clusters
            → IsInfo X o cluster addon info
            → P info)
        → Emits (Applies dry_run P) (apply_addons X server dry_run o addons clusters output)
    unfolding apply_addons
    apply_addons-Applies [] clusters output p = Emits-pure output
    apply_addons-Applies (addon ∷ addons) clusters output p =
        Emits-bind _ _
          (apply_in-Applies addon clusters output (λ c info. p addon c info (inl refl)))
          (λ output'.
            apply_addons-Applies addons clusters output' (λ a c info i. p a c info (inr i)))

  -- `addon enable` changes the hub only through the applier, which it always gives the dry-run flag of
  -- its options: for a named add-on and a named cluster, after the hub has answered a read of that
  -- cluster, with the options' namespace and all of their annotations.
  pub run-MayApply :
      (to_set : List String → List String)
      → IsSorter to_set
      → Emits (Applies dry_run (MayApply X o server)) (run X server to_set dry_run o)
  unfolding run run_with_client ◌>>◌
  run-MayApply to_set set =
      Emits-bind_of _ _
        (get_clusters-Emits X server (Applies dry_run _) (λ name. refl) (to_set o.clusters))
        λ a h e.
          Emits-bind _ _
            (apply_addons-Applies _ (to_set o.names) (to_set o.clusters) []
              λ addon cluster info i j made. (
                cluster,
                addon,
                made,
                (set.same addon o.names).0 i,
                (set.same cluster o.clusters).0 j,
                of_All _ cluster (to_set o.clusters)
                    ((get_clusters-WasFound X server (to_set o.clusters)).at h a e) j,
              ))
            (λ output.
              Emits-call {P = Applies dry_run _} server (write_output o.output_file output) refl)

-- A text of the form key=value.
abbrev pub IsPair : String → Type 0
IsPair text = (key : String) × (value : String) × (split b'=' text ≡ key ∷ value ∷ [])

-- The value of a key after some texts, the last one that has it.
abbrev value_of : String → List String → String → String
value_of key (k ∷ value ∷ []) before = if text_eq k key then value else before
value_of key _ before = before

abbrev pub last_value : String → List String → String → String
last_value key [] before = before
last_value key (text ∷ texts) before = last_value key texts (value_of key (split b'=' text) before)

module _ (X : Errors) where
  annotated_cases :
      (text : String) (parts : List String) (annos : Labels)
      → ((key : String) × (value : String) × (parts ≡ key ∷ value ∷ [])
          × (annotated X text parts annos ≡ ok (set_label key value annos)))
        ⊎ (((key value : String) → parts ≢ key ∷ value ∷ [])
            × ((e : X.Error) × (annotated X text parts annos ≡ err e)))
  unfolding annotated
  annotated_cases text [] annos = inr ((λ k v h. cc), (_, refl))
  annotated_cases text (k ∷ []) annos = inr ((λ k' v h. cc), (_, refl))
  annotated_cases text (k ∷ v ∷ []) annos = inl (k, v, refl, refl)
  annotated_cases text (k ∷ v ∷ w ∷ parts) annos = inr ((λ k' v' h. cc), (_, refl))

  -- The annotations are read exactly when each text has the form key=value; the value of a key is then
  -- that of the last text that has it, or what it was before.
  pub parse_annotations_cases :
      (texts : List String) (annos : Labels)
      → ((r : Labels) × (parse_annotations X texts annos ≡ ok r)
          × All IsPair texts
          × ((key : String) → label key r ≡ last_value key texts (label key annos)))
        ⊎ (((e : X.Error) × (parse_annotations X texts annos ≡ err e)) × ¬ All IsPair texts)
  unfolding parse_annotations
  parse_annotations_cases [] annos = inl (annos, refl, tt, λ key. refl)
  parse_annotations_cases (text ∷ texts) annos =
      elim (annotated_cases text (split b'=' text) annos) [
        | inl (k, v, parts, read) ↦ elim (parse_annotations_cases texts (set_label k v annos)) [
          | inl (r, done, pairs, values) ↦ inl (
            r,
            rw (read, parse_annotations) done,
            ((k, v, parts), pairs),
            λ key.
                values key
                ∙ ap (last_value key texts) (
                    label-set_label k v key annos
                    ∙ sym (ap (λ p. value_of key p (label key annos)) parts)),
          )
          | inr ((e, failed), unpaired) ↦
              inr ((e, rw (read, parse_annotations) failed), λ pairs. unpaired pairs.1)
        ]
        | inr (unpaired, (e, failed)) ↦
            inr ((e, rw (failed, parse_annotations)), λ ((k, v, parts), pairs). unpaired k v parts)
      ]
