-- ===== src/Sampleapp/Laws.antt =====
-- What `create sampleapp` reads, applies and prints.
use clusteradm.Base.{
  ◌≡◌, refl, ◌↔◌, ◌⊎◌, inl, inr, Bool, true, false, In, String, ◌<>◌, Option, none, some, List, [],
  ◌∷◌,
}
use clusteradm.Effect.{ok, Event, print, request, Trace, Server, pure, fail, say, call, ◌>>=◌}
use clusteradm.Effect.Emits.{
  Emits, Emits-pure, Emits-fail, Emits-say, Emits-if, Emits-call, Emits-bind, Emits-bind_of,
  Emits-then,
}
use clusteradm.Effect.IfOk.{Gives, Gives-pure, Gives-bind_of}
use clusteradm.Effect.Runs.{call_ok}
use clusteradm.Errors.{Errors}
use clusteradm.Sampleapp.{
  Options, Entry, Call, Answer, list_clusters, get_cluster, caller_directory, walk,
  apply_custom_resources, write_output, label_of, lacks, cluster_set_label, warning, dry_run_output,
  warn_if, check_labels, check_clusters, check_managed_cluster_binding, walked, the_files,
  deploy_app, finish, run_with_client,
}
use clusteradm.Sampleapp.Found.{IsFile, files_of-In, IsLacked, lacks-IsLacked}

module _ (X : Errors) (nil_dereference : X.Error) (server : Server Call Answer X.Error)
    (o : Options) (dry_run : Bool) where
  -- The files are just those below the directory of the sample application, which lies in the directory
  -- that was asked for.
  abbrev pub AreWalked : List String → Type 0
  AreWalked files =
      (directory : String) × (entries : List Entry) × (h : Trace Call) × (h' : Trace Call) × (server
          h caller_directory
        ≡ ok (some directory))
      × (server h' (walk (directory <> "/scenario/sampleapp")) ≡ ok (some entries))
      × ((file : String) → In file files ↔ IsFile entries file)

  -- The applier answered these resources.
  abbrev pub IsOutput : List String → Type 0
  IsOutput output =
      (files : List String) × (h : Trace Call) × (server h (apply_custom_resources dry_run o files)
        ≡ ok output)

  -- The labels that are looked for, with their values.
  abbrev pub IsWanted : String → String → Type 0
  IsWanted label value =
      ((label ≡ "cluster.open-cluster-management.io/clusterset")
        × (value ≡ "app-" <> o.sample_app_name))
      ⊎ ((label ≡ "placement") × (value ≡ "sampleapp"))

  -- A line on a label that is looked for and that the server's answer on a cluster lacks.
  abbrev pub IsLacking : String → Type 0
  IsLacking line =
      (cluster : String) × (labels : List (String × String)) × (h : Trace Call) × (server h
          (get_cluster cluster)
        ≡ ok labels)
      × ((label : String) × (value : String) × (line
            ≡ "[WARNING] Label \"" <> label <> "=" <> value
              <> "\" has not been found in ManagedCluster " <> cluster
              <> ", could not establish binding.\n")
          × IsWanted label value
          × IsLacked labels label value)

  -- What `create sampleapp` may do.
  abbrev pub MayDeploy : Event Call → Type 0
  MayDeploy (print line) =
      ((dry_run ≡ false) × IsLacking line)
      ⊎ ((dry_run ≡ true)
          × ((output : List String) × IsOutput output × (line ≡ dry_run_output output)))
  MayDeploy (request list_clusters) = dry_run ≡ false
  MayDeploy (request (get_cluster name)) = dry_run ≡ false
  MayDeploy (request (apply_custom_resources dry options files)) =
      (dry ≡ dry_run) × (options ≡ o) × AreWalked files
  MayDeploy (request (write_output file output)) = (file ≡ o.output_file) × IsOutput output
  MayDeploy _ = Unit

  warn_if-MayDeploy :
      (cluster : String) (labels : List (String × String)) (h : Trace Call) (label value : String)
      → dry_run ≡ false
      → server h (get_cluster cluster) ≡ ok labels
      → IsWanted label value
      → Emits MayDeploy (
          warn_if X nil_dereference server
            (lacks (label_of label labels) value)
            (warning label value cluster))
  unfolding warn_if
  warn_if-MayDeploy cluster labels h label value real answer wanted =
      Emits-if (lacks (label_of label labels) value) (say (warning label value cluster)) (pure tt)
        (λ e. Emits-say _ (
          inl (
            real,
            (
              cluster,
              labels,
              h,
              answer,
              (label, value, refl, wanted, lacks-IsLacked labels label value e),
            ),
          )))
        (λ _. Emits-pure _)

  check_clusters-MayDeploy :
      (clusters : List String)
      → dry_run ≡ false
      → Emits MayDeploy (check_clusters X nil_dereference server o clusters)
  unfolding check_clusters check_labels
  check_clusters-MayDeploy [] real = Emits-pure _
  check_clusters-MayDeploy (cluster ∷ clusters) real =
      Emits-then _ _
        (Emits-bind_of (call server (get_cluster cluster))
          (check_labels X nil_dereference server o cluster)
          (Emits-call {P = MayDeploy} server (get_cluster cluster) real)
          (λ labels h e.
            Emits-then _ _
              (warn_if-MayDeploy cluster labels h cluster_set_label _ real
                (call_ok server (get_cluster cluster) h labels e) (inl (refl, refl)))
              (warn_if-MayDeploy cluster labels h "placement" "sampleapp" real
                (call_ok server (get_cluster cluster) h labels e) (inr (refl, refl)))))
        (check_clusters-MayDeploy clusters real)

  walked-Gives :
      (directory : String) (r : Option (List Entry)) (h h' : Trace Call)
      → server h caller_directory ≡ ok (some directory)
      → server h' (walk (directory <> "/scenario/sampleapp")) ≡ ok r
      → Gives AreWalked (walked X nil_dereference server r)
  unfolding walked fail
  walked-Gives directory none h h' asked e = record { at = λ k a done. absurd (cc) }
  walked-Gives directory (some entries) h h' asked e =
      Gives-pure _ (directory, entries, h, h', asked, e, files_of-In entries)

  the_files-Gives :
      (directory : Option String) (h : Trace Call)
      → server h caller_directory ≡ ok directory
      → Gives AreWalked (the_files X nil_dereference server directory)
  unfolding the_files fail
  the_files-Gives none h asked = record { at = λ k a done. absurd (cc) }
  the_files-Gives (some directory) h asked =
      Gives-bind_of (call server (walk (directory <> "/scenario/sampleapp")))
        (walked X nil_dereference server)
        (λ r h' e.
          walked-Gives directory r h h' asked
            (call_ok server (walk (directory <> "/scenario/sampleapp")) h' r e))

  the_files-MayDeploy :
      (directory : Option String) → Emits MayDeploy (the_files X nil_dereference server directory)
  unfolding the_files walked
  the_files-MayDeploy none = Emits-fail _
  the_files-MayDeploy (some directory) =
      Emits-bind _ _ (Emits-call {P = MayDeploy} server (walk _) tt) (λ r.
        elim r as (λ r'. Emits MayDeploy (walked X nil_dereference server r')) [
          | none ↦ Emits-fail _
          | some entries ↦ Emits-pure _
        ])

  deploy_app-MayDeploy : Emits MayDeploy (deploy_app X nil_dereference server o dry_run)
  unfolding deploy_app
  deploy_app-MayDeploy =
      Emits-bind_of (call server caller_directory >>= the_files X nil_dereference server)
        (λ files. call server (apply_custom_resources dry_run o files))
        (Emits-bind _ _ (Emits-call {P = MayDeploy} server caller_directory tt) the_files-MayDeploy)
        (λ files h e. Emits-call {P = MayDeploy} server (apply_custom_resources dry_run o files) (
          refl,
          refl,
          (Gives-bind_of (call server caller_directory) (the_files X nil_dereference server)
                (λ directory k asked.
                  the_files-Gives directory k
                    (call_ok server caller_directory k directory asked))).at
              h files e,
        ))

  deploy_app-Gives : Gives IsOutput (deploy_app X nil_dereference server o dry_run)
  unfolding deploy_app
  deploy_app-Gives =
      Gives-bind_of (call server caller_directory >>= the_files X nil_dereference server)
        (λ files. call server (apply_custom_resources dry_run o files))
        (λ files _ _. record {
          at = λ h output e.
              (files, h, call_ok server (apply_custom_resources dry_run o files) h output e);
        })

  finish-MayDeploy :
      (output : List String)
      → IsOutput output
      → Emits MayDeploy (finish X nil_dereference server o dry_run output)
  unfolding finish
  finish-MayDeploy output given =
      Emits-then _ _
        (Emits-if dry_run (say (dry_run_output output)) (pure tt)
          (λ dry. Emits-say _ (inr (dry, (output, given, refl)))) (λ _. Emits-pure _))
        (Emits-call {P = MayDeploy} server (write_output o.output_file output) (refl, given))

  -- `create sampleapp` applies, with the dry-run flag that is given, a list of just the files below the
  -- directory of the sample application in the directory that was asked for, and writes what the applier
  -- answered. It reads the clusters only when it is no dry run, and then prints only warnings of one of the
  -- two labels that are looked for, where the hub's answer on a cluster has no such label or has it with
  -- another value; the resources are printed only in a dry run.
  pub run_with_client-MayDeploy :
      Emits MayDeploy (run_with_client X nil_dereference server o dry_run)
  unfolding run_with_client check_managed_cluster_binding
  run_with_client-MayDeploy =
      Emits-then _ _
        (Emits-if dry_run (pure tt)
          (call server list_clusters >>= check_clusters X nil_dereference server o)
          (λ _. Emits-pure _)
          (λ real.
            Emits-bind _ _ (Emits-call {P = MayDeploy} server list_clusters real)
              (λ clusters. check_clusters-MayDeploy clusters real)))
        (Emits-bind_of (deploy_app X nil_dereference server o dry_run)
          (finish X nil_dereference server o dry_run) deploy_app-MayDeploy
          (λ output h e. finish-MayDeploy output (deploy_app-Gives.at h output e)))
