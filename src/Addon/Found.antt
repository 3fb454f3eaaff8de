-- ===== src/Addon/Found.antt =====
-- What is known once the clusters of a command on add-ons have been read.
use clusteradm.Base.{◌≡◌, String, List, [], ◌∷◌, All}
use clusteradm.Effect.{ok, Event, request, Trace, Server, call}
use clusteradm.Effect.Emits.{Emits, Emits-pure, Emits-call, Emits-then}
use clusteradm.Effect.IfOk.{IfOk, IfOk-then_both}
use clusteradm.Errors.{Errors}
use clusteradm.Hub.{Cluster, Call, Answer, get_cluster}
use clusteradm.Addon.{get_clusters}

module _ (X : Errors) (server : Server Call Answer X.Error) where
  -- The hub has answered a read of this cluster.
  abbrev pub WasFound : String → Type 0
  WasFound name =
      (h : Trace Call) × (cluster : Cluster) × (server h (get_cluster name) ≡ ok cluster)

  call-WasFound : (name : String) → IfOk (WasFound name) (call server (get_cluster name))
  unfolding call
  call-WasFound name = record { at = λ h cluster e. (h, cluster, e) }

  pub get_clusters-WasFound :
      (names : List String) → IfOk (All WasFound names) (get_clusters X server names)
  unfolding get_clusters
  get_clusters-WasFound [] = record { at = λ h a e. tt }
  get_clusters-WasFound (name ∷ names) =
      IfOk-then_both _ _ (call-WasFound name) (get_clusters-WasFound names)

  pub get_clusters-Emits :
      (P : Event Call → Type 0)
      → ((name : String) → P (request (get_cluster name)))
      → (names : List String) → Emits P (get_clusters X server names)
  unfolding get_clusters
  get_clusters-Emits P p [] = Emits-pure tt
  get_clusters-Emits P p (name ∷ names) =
      Emits-then _ _ (Emits-call {P = P} server (get_cluster name) (p name))
        (get_clusters-Emits P p names)
