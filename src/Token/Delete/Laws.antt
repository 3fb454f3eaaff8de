-- ===== src/Token/Delete/Laws.antt =====
-- What `delete token` deletes.
use clusteradm.Base.{
  ◌≡◌, refl, inl, inr, Option, none, some, Bool, true, false, String, List, [], ◌∷◌, All, In,
}
use clusteradm.Effect.{Result, ok, err, Event, print, request, Trace, Prog, Server}
use clusteradm.Effect.Emits.{
  Emits, emits_rules, Emits-call, Emits-attempt, Emits-bind, Emits-bind_of, Emits-then,
}
use clusteradm.Effect.Sends.{
  Sends, SendsIfOk, Sends-call, Sends-attempt, Sends-bind, SendsIfOk-Sends, SendsIfOk-then_left,
  SendsIfOk-then_right,
}
use clusteradm.Effect.Runs.{attempt_result}
use clusteradm.Errors.{Errors}
use clusteradm.Token.{
  Secret, Call, Answer, list_secrets, delete_cluster_role_binding, delete_cluster_role,
  delete_secret, delete_service_account,
}
use clusteradm.Token.Lookup.{the_secret, get_bootstrap_secret}
use clusteradm.Token.Delete.{
  tolerate, unless_missing, delete_found, delete_bootstrap_secret, delete_token, run,
}

module _ (X : Errors) (server : Server Call Answer X.Error) where
  -- The secret was the answer of `GetBootstrapSecret` at some time.
  abbrev pub WasFound : String → String → Type 0
  WasFound namespace name =
      (s : Secret) × (h : Trace Call) × ((get_bootstrap_secret X server h).0 ≡ ok s)
      × (s.namespace ≡ namespace)
      × (s.name ≡ name)

  -- The deletions that `delete token` may ask for, and the list of secrets; nothing on a dry run.
  abbrev pub Deletes : Bool → Event Call → Type 0
  Deletes dry_run (print line) = ⊥
  Deletes dry_run (request (list_secrets namespace selector)) =
      (dry_run ≡ false) × (namespace ≡ "kube-system") × (selector ≡ "app = cluster-manager")
  Deletes dry_run (request (delete_cluster_role_binding name)) =
      (dry_run ≡ false) × In name ("cluster-bootstrap" ∷ "cluster-bootstrap-sa" ∷ [])
  Deletes dry_run (request (delete_cluster_role name)) =
      (dry_run ≡ false) × (name ≡ "system:open-cluster-management:bootstrap")
  Deletes dry_run (request (delete_secret namespace name)) =
      (dry_run ≡ false) × WasFound namespace name
  Deletes dry_run (request (delete_service_account namespace name)) =
      (dry_run ≡ false) × (namespace ≡ "open-cluster-management") × (name ≡ "cluster-bootstrap")
  Deletes dry_run (request c) = ⊥

  tolerate-Emits :
      (P : Event Call → Type 0) (r : Result X.Error (Unit {0})) → Emits P (tolerate X server r)
  unfolding tolerate
  tolerate-Emits P (ok _) = search emits_rules
  tolerate-Emits P (err e) = search emits_rules

  unless_missing-Emits :
      (P : Event Call → Type 0) (c : Prog Call X.Error (Unit {0}))
      → Emits P c
      → Emits P (unless_missing X server c)
  unfolding unless_missing
  unless_missing-Emits P c k = Emits-bind _ _ (Emits-attempt _ k) (λ r. tolerate-Emits P r)

  the_secret-Deletes : (o : Option Secret) → Emits (Deletes false) (the_secret X server o)
  unfolding the_secret
  the_secret-Deletes none = search emits_rules
  the_secret-Deletes (some s) = search emits_rules

  get_bootstrap_secret-Deletes : Emits (Deletes false) (get_bootstrap_secret X server)
  unfolding get_bootstrap_secret
  get_bootstrap_secret-Deletes =
      Emits-bind _ _
        (Emits-call {P = Deletes false} server (list_secrets "kube-system" "app = cluster-manager")
          (refl, refl, refl))
        (λ items. the_secret-Deletes _)

  delete_found-Deletes :
      (r : Result X.Error Secret) (h : Trace Call)
      → (get_bootstrap_secret X server h).0 ≡ r
      → Emits (Deletes false) (delete_found X server r)
  unfolding delete_found
  delete_found-Deletes (err e) h found = search emits_rules
  delete_found-Deletes (ok s) h found = unless_missing-Emits _ _ (
      Emits-call {P = Deletes false} server (delete_secret s.namespace s.name)
        (refl, (s, h, found, refl, refl)))

  delete_bootstrap_secret-Deletes : Emits (Deletes false) (delete_bootstrap_secret X server)
  unfolding delete_bootstrap_secret
  delete_bootstrap_secret-Deletes =
      Emits-bind_of _ _ (Emits-attempt _ get_bootstrap_secret-Deletes)
        λ r h e. delete_found-Deletes r h (attempt_result _ h r e)

  delete_token-Deletes : Emits (Deletes false) (delete_token X server)
  unfolding delete_token
  delete_token-Deletes =
      Emits-then _ _
        (unless_missing-Emits _ _ (
          Emits-call {P = Deletes false} server (delete_cluster_role_binding "cluster-bootstrap")
            (refl, inl refl)))
        (Emits-then _ _
          (unless_missing-Emits _ _ (
            Emits-call {P = Deletes false} server
              (delete_cluster_role_binding "cluster-bootstrap-sa") (refl, inr (inl refl))))
          (Emits-then _ _
            (unless_missing-Emits _ _ (
              Emits-call {P = Deletes false} server
                (delete_cluster_role "system:open-cluster-management:bootstrap") (refl, refl)))
            (Emits-then _ _ delete_bootstrap_secret-Deletes (
              unless_missing-Emits _ _ (
                Emits-call {P = Deletes false} server
                  (delete_service_account "open-cluster-management" "cluster-bootstrap")
                  (refl, refl, refl))))))

  -- `delete token` deletes only the two role bindings, the role and the service account of the
  -- bootstrap, and a secret that `GetBootstrapSecret` answered. With --dry-run it makes no call.
  pub run-Deletes : (dry_run : Bool) → Emits (Deletes dry_run) (run X server dry_run)
  unfolding run
  run-Deletes true = search emits_rules
  run-Deletes false = delete_token-Deletes

  asked :
      (c : Call) (m : Prog Call X.Error (Unit {0}))
      → Sends (request c) m
      → SendsIfOk (request c) (unless_missing X server m)
  unfolding unless_missing
  asked c m s = SendsIfOk-Sends _ (Sends-bind _ _ (Sends-attempt _ s))

  -- The objects that a successful run has asked to delete.
  abbrev pub bootstrap_objects : List (Event Call)
  bootstrap_objects =
      request (delete_cluster_role_binding "cluster-bootstrap")
      ∷ request (delete_cluster_role_binding "cluster-bootstrap-sa")
      ∷ request (delete_cluster_role "system:open-cluster-management:bootstrap")
      ∷ request (delete_service_account "open-cluster-management" "cluster-bootstrap")
      ∷ []

  delete_token-SendsIfOk : All (λ e. SendsIfOk e (delete_token X server)) bootstrap_objects
  unfolding delete_token
  delete_token-SendsIfOk = (
    SendsIfOk-then_left _ _
        (asked _ _ (Sends-call server (delete_cluster_role_binding "cluster-bootstrap"))),
    (
      SendsIfOk-then_right _ _ (
          SendsIfOk-then_left _ _
            (asked _ _ (Sends-call server (delete_cluster_role_binding "cluster-bootstrap-sa")))),
      (
        SendsIfOk-then_right _ _ (
            SendsIfOk-then_right _ _ (
              SendsIfOk-then_left _ _ (
                asked _ _ (
                  Sends-call server
                    (delete_cluster_role "system:open-cluster-management:bootstrap"))))),
        (
          SendsIfOk-then_right _ _ (
              SendsIfOk-then_right _ _ (
                SendsIfOk-then_right _ _ (
                  SendsIfOk-then_right _ _ (
                    asked _ _ (
                      Sends-call server
                        (delete_service_account "open-cluster-management" "cluster-bootstrap")))))),
          tt,
        ),
      ),
    ),
  )

  -- If `delete token` succeeds and it is no dry run, it has asked for the deletion of both role bindings,
  -- of the role and of the service account.
  run_deletes-bootstrap_objects :
      (h : Trace Call)
      → (run X server false h).0 ≡ ok tt
      → All (λ e. In e (run X server false h).1) bootstrap_objects
  unfolding run
  run_deletes-bootstrap_objects h ended =
      let (a, (b, (c, (d, _)))) = delete_token-SendsIfOk in
      (a.at h tt ended, (b.at h tt ended, (c.at h tt ended, (d.at h tt ended, tt))))
