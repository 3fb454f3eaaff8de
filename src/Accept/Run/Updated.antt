-- ===== src/Accept/Run/Updated.antt =====
-- When `updateManagedCluster` succeeds.
use clusteradm.Base.{ℕ, ◌≡◌, refl, ◌↔◌, true, String, ◌<>◌, ◌⊎◌, inl, inr, Bool-cases, ◌∷◌}
use clusteradm.Effect.{ok, Trace, Server, pure, say, call, request, ◌>>◌}
use clusteradm.Effect.Runs.{bind_result, ok_bind, call_ok, call_run}
use clusteradm.Errors.{Errors}
use clusteradm.Accept.{
  ManagedCluster, Call, Answer, Options, get_managed_cluster, patch_managed_cluster,
}
use clusteradm.Accept.Run.{patch, accept_client, update_managed_cluster}

module _ (X : Errors) (arg : String) (now : Trace Call → ℕ)
    (server : Server Call Answer X.Error) where
  -- The hub has answered the read of the cluster, and the cluster is accepted already, or it is a dry run, or
  -- the hub has answered the patch.
  abbrev pub IsUpdated : Options → String → Trace Call → Type 0
  IsUpdated o name h =
      (mc : ManagedCluster) × (server h (get_managed_cluster name) ≡ ok mc)
      × ((mc.hub_accepts_client ≡ true)
          ⊎ ((o.dry_run ≡ true)
              ⊎ (server (request (get_managed_cluster name) ∷ h)
                    (patch_managed_cluster mc.name "{\"spec\":{\"hubAcceptsClient\":true}}")
                  ≡ ok tt)))

  accept_client_ok :
      (o : Options) (name : String) (mc : ManagedCluster) (h : Trace Call)
      → ((accept_client X arg now server o name mc h).0 ≡ ok tt) ↔ (
          (mc.hub_accepts_client ≡ true)
          ⊎ ((o.dry_run ≡ true)
              ⊎ (server h (patch_managed_cluster mc.name (patch X arg now server)) ≡ ok tt)))
  unfolding accept_client ◌>>◌ pure say
  accept_client_ok o name mc h = elim (Bool-cases mc.hub_accepts_client) [
    | inl accepted ↦ (λ _. inl accepted, λ _. rw accepted refl)
    | inr not_yet ↦ elim (Bool-cases o.dry_run) [
      | inl dry ↦ (λ _. inr (inl dry), λ _. rw (not_yet, dry) refl)
      | inr real ↦
          let request_patch = patch_managed_cluster mc.name (patch X arg now server) in
          let ask = call server request_patch in
          let line = "set hubAcceptsClient to true for managed cluster " <> name <> "\n" in
          (
            λ done.
                let done' : ((ask >> say line) h).0 ≡ ok tt = rw (not_yet, real) at done in
                let (a, first, _) = ok_bind ask (λ _. say line) h tt done' in
                inr (inr (call_ok server request_patch h a first)),
            λ either. elim either [
              | inl accepted ↦ absurd (cc)
              | inr (inl dry) ↦ absurd (cc)
              | inr (inr answered) ↦
                  rw (not_yet, real)
                    (bind_result ask (λ _. say line) h (call_run server request_patch h answered)
                      refl)
            ],
          )
    ]
  ]

  pub update_managed_cluster_ok :
      (o : Options) (name : String) (h : Trace Call)
      → ((update_managed_cluster X arg now server o name h).0 ≡ ok tt) ↔ IsUpdated o name h
  unfolding update_managed_cluster
  update_managed_cluster_ok o name h =
      let ask = call server (get_managed_cluster name) in
      let rest = accept_client X arg now server o name in
      (
        λ done.
            let (mc, first, later) = ok_bind ask rest h tt done in
            (
              mc,
              call_ok server (get_managed_cluster name) h mc first,
              (accept_client_ok o name mc _).0 (unfold call in later),
            ),
        λ found.
            let (mc, answered, either) = found in
            bind_result ask rest h (call_run server (get_managed_cluster name) h answered)
              ((accept_client_ok o name mc _).1 either),
      )
