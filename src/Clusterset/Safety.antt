-- ===== src/Clusterset/Safety.antt =====
-- When the commands on cluster sets change the hub.
use clusteradm.Base.{
  ◌≡◌, refl, inl, inr, ◌≢◌, Bool, true, false, String, ◌<>◌, List, [], ◌∷◌, text_eq, eq_iff, All,
  arith, Bool-cases,
}
use clusteradm.Effect.{
  Result, ok, err, Event, print, request, Trace, Server, fail, say, call, ◌>>=◌, attempt,
}
use clusteradm.Effect.Emits.{
  Emits, emits_rules, All-append, Emits-call, Emits-bind, Emits-attempt, Emits-pure, Emits-then,
  Emits-say, Emits-lift, Emits-fail, Emits-if,
}
use clusteradm.Errors.{Errors}
use clusteradm.Hub.{
  ClusterSetBinding, Call, Answer, get_cluster_set, delete_cluster_set, watch_cluster_set,
  list_bindings, is_write,
}
use clusteradm.Clusterset.Delete.{
  watch_deletion, delete_and_wait, delete_unbound, check_bindings, check_existing, delete_named,
  delete,
}

module _ (X : Errors) (server : Server Call Answer X.Error) where
  -- Every change is the deletion of this cluster set, under a condition.
  abbrev pub Deletes : String → Type 0 → Event Call → Type 0
  Deletes clusterset A (print line) = Unit
  Deletes clusterset A (request (delete_cluster_set name)) = (name ≡ clusterset) × A
  Deletes clusterset A (request c) = is_write c ≡ false

  module _ (A : Type 0) (clusterset : String) where
    watch_deletion-Deletes : Emits (Deletes clusterset A) (watch_deletion X server clusterset)
    unfolding watch_deletion
    watch_deletion-Deletes =
        Emits-bind _ _
          (Emits-attempt _
            (Emits-call {P = Deletes clusterset A} server (watch_cluster_set clusterset) refl))
          (λ r. Emits-pure _)

    deletion-Deletes :
        A → Emits (Deletes clusterset A) (call server (delete_cluster_set clusterset))
    deletion-Deletes a =
        Emits-call {P = Deletes clusterset A} server (delete_cluster_set clusterset) (refl, a)

    delete_and_wait-Deletes :
        (watch_first : Bool)
        → A
        → Emits (Deletes clusterset A) (delete_and_wait X server watch_first clusterset)
    unfolding delete_and_wait
    delete_and_wait-Deletes true a = Emits-bind _ _ watch_deletion-Deletes λ seen.
        Emits-then _ _ (deletion-Deletes a) (Emits-then _ _ (Emits-lift seen) (Emits-say _ tt))
    delete_and_wait-Deletes false a = Emits-then _ _ (deletion-Deletes a) (
        Emits-bind _ _ watch_deletion-Deletes
          λ seen. Emits-then _ _ (Emits-lift seen) (Emits-say _ tt))

    delete_unbound-Deletes :
        (watch_first dry_run : Bool)
        → (dry_run ≡ false → A)
        → Emits (Deletes clusterset A) (delete_unbound X server watch_first dry_run clusterset)
    unfolding delete_unbound
    delete_unbound-Deletes watch_first true f = search emits_rules
    delete_unbound-Deletes watch_first false f = delete_and_wait-Deletes watch_first (f refl)

  -- The bindings' list says that the set is bound nowhere.
  abbrev pub Unbound : Result X.Error (List ClusterSetBinding) → Type 0
  Unbound (ok []) = Unit
  Unbound (ok (b ∷ bs)) = ⊥
  Unbound (err e) = X.is_not_found e ≡ true

  module _ (A : Type 0) (clusterset : String) (watch_first dry_run : Bool) where
    check_bindings-Deletes :
        (r : Result X.Error (List ClusterSetBinding))
        → (Unbound r → dry_run ≡ false → A)
        → Emits (Deletes clusterset A) (check_bindings X server watch_first dry_run clusterset r)
    unfolding check_bindings
    check_bindings-Deletes (ok []) f =
        delete_unbound-Deletes A clusterset watch_first dry_run (f tt)
    check_bindings-Deletes (ok (b ∷ bs)) f = search emits_rules
    check_bindings-Deletes (err e) f =
        Emits-if (X.is_not_found e) (delete_unbound X server watch_first dry_run clusterset)
          (fail e) (λ gone. delete_unbound-Deletes A clusterset watch_first dry_run (f gone))
          (λ _. Emits-fail e)

    check_existing-Deletes :
        (r : Result X.Error (Unit {0})) (h : Trace Call)
        → (r ≡ ok tt → Unbound (server h (list_bindings clusterset)) → dry_run ≡ false → A)
        → All (Deletes clusterset A) (check_existing X server watch_first dry_run clusterset r h).1
    unfolding check_existing ◌>>=◌ attempt call
    check_existing-Deletes (err e) h f =
        (Emits-if (X.is_not_found e)
            (say ("Clusterset " <> clusterset <> " not found or is already deleted\n")) (fail e)
            (λ _. Emits-say _ tt) (λ _. Emits-fail e)).at
          h
    check_existing-Deletes (ok _) h f =
        let list = list_bindings clusterset in
        let checked = check_bindings X server watch_first dry_run clusterset (server h list) in
        All-append _ (checked (request list ∷ h)).1 (request list ∷ [])
          ((check_bindings-Deletes (server h list) (f refl)).at (request list ∷ h)) (refl, tt)

  -- What has to hold before the deletion.
  abbrev pub MayDelete : Bool → String → Trace Call → Type 0
  MayDelete dry_run clusterset h =
      (clusterset ≢ "default")
      × (dry_run ≡ false)
      × (server h (get_cluster_set clusterset) ≡ ok tt)
      × Unbound (server (request (get_cluster_set clusterset) ∷ h) (list_bindings clusterset))

  ne_of : {s t : String} → text_eq s t ≡ false → s ≢ t
  ne_of {s} {t} h e = ground (arith, eq_iff s t)

  -- A cluster set is deleted only if it is not the default one, it is no dry run, the set was found, and
  -- the list of its bindings was empty or not found. No other set is deleted and nothing else is changed,
  -- whether the watch of the deletion starts before or after it.
  pub delete-MayDelete :
      (watch_first dry_run : Bool) (clusterset : String) (h : Trace Call)
      → All
          (Deletes clusterset (MayDelete dry_run clusterset h))
          (delete X server watch_first dry_run clusterset h).1
  unfolding delete delete_named ◌>>=◌ attempt call
  delete-MayDelete watch_first dry_run clusterset h =
      elim (Bool-cases (text_eq clusterset "default")) [
        | inl same ↦ rw same (unfold say in (tt, tt))
        | inr named ↦
            let get = get_cluster_set clusterset in
            let checked = check_existing X server watch_first dry_run clusterset (server h get) in
            rw named (
              All-append _ (checked (request get ∷ h)).1 (request get ∷ [])
                (check_existing-Deletes _ clusterset watch_first dry_run (server h get)
                  (request get ∷ h) (λ found unbound real. (ne_of named, real, found, unbound)))
                (refl, tt))
      ]
