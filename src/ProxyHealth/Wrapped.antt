-- ===== src/ProxyHealth/Wrapped.antt =====
-- The events and the answers of the calls of `proxy health` whose errors are wrapped.
use clusteradm.Base.{◌≡◌, ◌∙◌, String, ◌++◌}
use clusteradm.Effect.{
  Result, ok, err, Event, Trace, Prog, Server, pure, fail, call, attempt, ◌>>=◌,
}
use clusteradm.Effect.Emits.{Emits, Emits-pure, Emits-fail, Emits-attempt, Emits-bind}
use clusteradm.Effect.Runs.{ok_bind, attempt_result}
use clusteradm.Effect.IfOk.{Gives, Gives-bind_of}
use clusteradm.Errors.{Errors}
use clusteradm.ProxyHealth.{Call, Answer}
use clusteradm.ProxyHealth.Probe.{wrap_result, wrapped}

module _ (X : Errors) (wrap : X.Error → String → X.Error)
    (server : Server Call Answer X.Error) where
  Emits-wrap_result :
      {A : Type 0} {P : Event Call → Type 0} (message : String) (r : Result X.Error A)
      → Emits P (wrap_result X wrap server message r)
  Emits-wrap_result message (ok a) = Emits-pure a
  Emits-wrap_result message (err e) = Emits-fail _

  pub Emits-wrapped :
      {A : Type 0} {P : Event Call → Type 0} (message : String) (m : Prog Call X.Error A)
      → Emits P m
      → Emits P (wrapped X wrap server message m)
  unfolding wrapped
  Emits-wrapped message m k = Emits-bind _ _ (Emits-attempt m k) (Emits-wrap_result message)

  wrap_result_ok :
      {A : Type 0} (message : String) (r : Result X.Error A) (h : Trace Call) (a : A)
      → (wrap_result X wrap server message r h).0 ≡ ok a
      → r ≡ ok a
  unfolding pure fail
  wrap_result_ok message (ok b) h a e = e
  wrap_result_ok message (err x) h a e = absurd (cc)

  -- A call that is wrapped and succeeds has the server's answer.
  pub wrapped_ok :
      {A : Type 0} (message : String) (m : Prog Call X.Error A) (h : Trace Call) (a : A)
      → (wrapped X wrap server message m h).0 ≡ ok a
      → (m h).0 ≡ ok a
  unfolding wrapped
  wrapped_ok message m h a e =
      let (r, first, later) = ok_bind (attempt m) (wrap_result X wrap server message) h a e in
      attempt_result m h r first ∙ wrap_result_ok message r ((attempt m h).1 ++ h) a later

  pub Gives-wrapped :
      {A : Type 0} {R : A → Type 0} (message : String) (m : Prog Call X.Error A)
      → Gives R m
      → Gives R (wrapped X wrap server message m)
  Gives-wrapped message m k = record { at = λ h a e. k.at h a (wrapped_ok message m h a e) }

  pub wrapped_answer :
      (message : String) (c : Call) (h : Trace Call) (a : Answer c)
      → (wrapped X wrap server message (call server c) h).0 ≡ ok a
      → server h c ≡ ok a
  unfolding call
  wrapped_answer message c h a e = wrapped_ok message (call server c) h a e

  pub Gives-wrapped-call :
      {A : Type 0} {R : A → Type 0} (message : String) (c : Call)
      (f : Answer c → Prog Call X.Error A)
      → ((a : Answer c) (h : Trace Call) → server h c ≡ ok a → Gives R (f a))
      → Gives R (wrapped X wrap server message (call server c) >>= f)
  Gives-wrapped-call message c f k =
      Gives-bind_of (wrapped X wrap server message (call server c)) f
        (λ a h e. k a h (wrapped_answer message c h a e))
