-- ===== src/Retry.antt =====
-- `retry.OnError` of k8s.io/client-go, which waits for a resource with it, as an interface: it runs a
-- function again and again until it succeeds or the steps of its backoff are over.
use clusteradm.Base.{ℕ, zero, suc, ◌≡◌}
use clusteradm.Effect.{Result, ok, err, Event, Trace, Prog, pure, ◌>>=◌, attempt}
use clusteradm.Effect.Emits.{Emits, emits_rules, Emits-bind, Emits-attempt}
use clusteradm.Effect.Runs.{attempt_result}
use clusteradm.Effect.IfOk.{IfOk, IfOk-bind_of}

-- A retry keeps to the events of its function, and succeeds only where a run of it has succeeded.
pub record IsRetry {C E : Type 0} (on_error : Prog C E (Unit {0}) → Prog C E (Unit {0}))
    : Type 1 where
  pub emits : (P : Event C → Type 0) (f : Prog C E (Unit {0})) → Emits P f → Emits P (on_error f)
  pub succeeded :
      (f : Prog C E (Unit {0})) (h : Trace C)
      → (on_error f h).0 ≡ ok tt
      → (h' : Trace C) × ((f h').0 ≡ ok tt)

module _ {C E : Type 0} where
  -- A next round, unless the last one succeeded.
  unfoldable pub or_again : Prog C E (Unit {0}) → Result E (Unit {0}) → Prog C E (Unit {0})
  or_again rest (ok _) = pure tt
  or_again rest (err e) = rest

  -- A retry with a number of further rounds.
  unfoldable pub retry_rounds : ℕ → Prog C E (Unit {0}) → Prog C E (Unit {0})
  retry_rounds zero f = f
  retry_rounds (suc n) f = do r ← attempt f; or_again (retry_rounds n f) r

  or_again-Emits :
      (P : Event C → Type 0) (rest : Prog C E (Unit {0})) (r : Result E (Unit {0}))
      → Emits P rest
      → Emits P (or_again rest r)
  unfolding or_again
  or_again-Emits P rest (ok _) k = search emits_rules
  or_again-Emits P rest (err e) k = k

  retry_rounds-Emits :
      (n : ℕ) (P : Event C → Type 0) (f : Prog C E (Unit {0}))
      → Emits P f
      → Emits P (retry_rounds n f)
  unfolding retry_rounds
  retry_rounds-Emits zero P f k = k
  retry_rounds-Emits (suc n) P f k =
      Emits-bind _ _ (Emits-attempt _ k) (λ r. or_again-Emits P _ r (retry_rounds-Emits n P f k))

  -- A run of `f` has succeeded.
  abbrev HasSucceeded : Prog C E (Unit {0}) → Type 0
  HasSucceeded f = (h : Trace C) × ((f h).0 ≡ ok tt)

  or_again-IfOk :
      (f rest : Prog C E (Unit {0})) (h : Trace C) (r : Result E (Unit {0}))
      → (f h).0 ≡ r
      → IfOk (HasSucceeded f) rest
      → IfOk (HasSucceeded f) (or_again rest r)
  unfolding or_again
  or_again-IfOk f rest h (ok _) e k = record { at = λ h' a done. (h, e) }
  or_again-IfOk f rest h (err x) e k = k

  retry_rounds-IfOk : (n : ℕ) (f : Prog C E (Unit {0})) → IfOk (HasSucceeded f) (retry_rounds n f)
  unfolding retry_rounds
  retry_rounds-IfOk zero f = record { at = λ h a done. (h, done) }
  retry_rounds-IfOk (suc n) f =
      IfOk-bind_of _ _
        λ r h e. or_again-IfOk f _ h r (attempt_result f h r e) (retry_rounds-IfOk n f)

  pub retry_rounds-IsRetry : (n : ℕ) → IsRetry {E = E} (retry_rounds n)
  retry_rounds-IsRetry n = record {
    emits = retry_rounds-Emits n;
    succeeded = λ f h done. (retry_rounds-IfOk n f).at h tt done;
  }
