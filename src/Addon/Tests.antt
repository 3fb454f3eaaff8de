-- ===== src/Addon/Tests.antt =====
-- Add-ons on a hub with two clusters.
use clusteradm.Base.{◌≡◌, refl, ◌⊎◌, inl, inr, true, String, List, [], ◌∷◌, All}
use clusteradm.Effect.{ok, err, Server, request}
use clusteradm.Effect.Emits.{Emits}
use clusteradm.Effect.Sends.{SendsIfOk}
use clusteradm.Errors.{Status, not_found, status_errors}
use clusteradm.Hub.{
  Labels, Call, Answer, server_resources, get_cluster_set, create_cluster_set, delete_cluster_set,
  watch_cluster_set, list_bindings, create_binding, delete_binding, get_cluster, list_clusters,
  update_cluster, delete_addon, apply_addon, write_output,
}
use clusteradm.Clusterset.Set.{label}
use clusteradm.Addon.{IsSorter}
use clusteradm.Addon.Disable
use clusteradm.Addon.Disable.Laws.{Deletes, MayDisable, run-MayDisable, run_with_client-SendsIfOk}
use clusteradm.Addon.Enable
use clusteradm.Addon.Enable.Laws.{
  Applies, MayApply, run-MayApply, IsPair, last_value, parse_annotations_cases,
}

abbrev hub : Server Call Answer Status
hub h (server_resources group_version) = ok ("managedclusters" ∷ [])
hub h (get_cluster_set name) = ok tt
hub h (create_cluster_set name) = ok tt
hub h (delete_cluster_set name) = ok tt
hub h (watch_cluster_set name) = ok []
hub h (list_bindings name) = ok []
hub h (create_binding binding) = ok tt
hub h (delete_binding namespace name) = ok tt
hub h (get_cluster name) = ok (record { name = name; labels = [] })
hub h list_clusters =
    ok ((record { name = "c1"; labels = [] }) ∷ (record { name = "c2"; labels = [] }) ∷ [])
hub h (update_cluster cluster) = ok tt
hub h (delete_addon cluster addon) = err (not_found addon)
hub h (apply_addon dry_run info) = ok []
hub h (write_output file output) = ok tt

-- The lists of the tests are sorted and have no name twice.
abbrev to_set : List String → List String
to_set xs = xs

to_set-IsSorter : IsSorter to_set
to_set-IsSorter = record { same = λ x xs. ((λ i. i), (λ i. i)) }

abbrev disable_options : Disable.Options
disable_options = record { names = "search" ∷ []; clusters = []; all_clusters = true }

abbrev enable_options : Enable.Options
enable_options = record {
  names = "search" ∷ [];
  namespace = "open-cluster-management-agent-addon";
  clusters = "c1" ∷ "c2" ∷ [];
  output_file = "";
  annotate = "a=1" ∷ "a=2" ∷ [];
}

run-MayDisable_example :
    Emits
      (Deletes (MayDisable status_errors hub disable_options))
      (Disable.run status_errors hub to_set disable_options)
run-MayDisable_example = run-MayDisable status_errors hub to_set to_set-IsSorter disable_options

run_with_client-SendsIfOk_example :
    SendsIfOk
      (request (delete_addon "c2" "search"))
      (Disable.run_with_client status_errors hub ("search" ∷ []) ("c1" ∷ "c2" ∷ []))
run_with_client-SendsIfOk_example =
    run_with_client-SendsIfOk status_errors hub "search" "c2" ("search" ∷ []) ("c1" ∷ "c2" ∷ [])
      (inl refl) (inr (inl refl))

run-MayApply_example :
    Emits
      (Applies true (MayApply status_errors enable_options hub))
      (Enable.run status_errors hub to_set true enable_options)
run-MayApply_example = run-MayApply status_errors hub true enable_options to_set to_set-IsSorter

parse_annotations_cases_example :
    ((r : Labels) × (Enable.parse_annotations status_errors ("a=1" ∷ "a=2" ∷ []) [] ≡ ok r)
      × All IsPair ("a=1" ∷ "a=2" ∷ [])
      × ((key : String) → label key r ≡ last_value key ("a=1" ∷ "a=2" ∷ []) (label key [])))
    ⊎ (((e : Status) × (Enable.parse_annotations status_errors ("a=1" ∷ "a=2" ∷ []) [] ≡ err e))
        × ¬ All IsPair ("a=1" ∷ "a=2" ∷ []))
parse_annotations_cases_example = parse_annotations_cases status_errors ("a=1" ∷ "a=2" ∷ []) []
