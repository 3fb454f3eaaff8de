-- ===== src/Clusterset/Outcomes.antt =====
-- What `clusterset bind`, `clusterset unbind` and `create clusterset` answer, on every branch.
use clusteradm.Base.{◌≡◌, Bool, List, [], ◌∷◌, if◌then◌else◌, arith}
use clusteradm.Effect.{
  Result, ok, err, request, Trace, Server, pure, fail, say, call, ◌>>=◌, ◌>>◌, attempt,
}
use clusteradm.Effect.Calls.{outcome}
use clusteradm.Errors.{Errors}
use clusteradm.Hub.{Call, Answer, get_cluster_set, create_binding, delete_binding, unless_not_found}
use clusteradm.Clusterset.Bind
use clusteradm.Clusterset.Bind.{bind, bound, unbind}

module _ (X : Errors) (server : Server Call Answer X.Error) where
  -- An answer to a change, where an error of one kind counts as done.
  abbrev pub tolerated : (X.Error → Bool) → Result X.Error (Unit {0}) → Result X.Error (Unit {0})
  tolerated is_done (ok _) = ok tt
  tolerated is_done (err e) = if is_done e then ok tt else err e

  -- A change that is asked for only where a read succeeded: the result and the calls, the last one first.
  abbrev pub guarded :
      Call
      → Call
      → Result X.Error (Unit {0})
      → Result X.Error (Unit {0})
      → Result X.Error (Unit {0}) × List Call
  guarded read change (err e) r = (err e, read ∷ [])
  guarded read change (ok _) r = (r, change ∷ read ∷ [])

  -- `clusterset bind` reads the set; only if that succeeded it creates, in the given namespace, a binding
  -- of the set's name to the set, and a binding that exists already is no error.
  bind-outcome :
      (o : Bind.Options) (h : Trace Call)
      → let read = get_cluster_set o.clusterset in
        let change : Call =
          create_binding
            (record { name = o.clusterset; namespace = o.namespace; cluster_set = o.clusterset }) in
        outcome (bind X server o h)
        ≡ guarded read change
            (server h read)
            (tolerated X.is_already_exists (server (request read ∷ h) change))
  unfolding bind bound ◌>>=◌ ◌>>◌ attempt call say fail
  bind-outcome o h = ground arith

  -- `clusterset unbind` reads the set; only if that succeeded it deletes the binding of the set's name in
  -- the given namespace, and a binding that is not found is no error.
  unbind-outcome :
      (o : Bind.Options) (h : Trace Call)
      → let read = get_cluster_set o.clusterset in
        let change = delete_binding o.namespace o.clusterset in
        outcome (unbind X server o h)
        ≡ guarded read change
            (server h read)
            (tolerated X.is_not_found (server (request read ∷ h) change))
  unfolding unbind unless_not_found ◌>>=◌ ◌>>◌ attempt call say fail pure
  unbind-outcome o h = ground arith
