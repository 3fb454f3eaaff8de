-- ===== src/Removal/Gone.antt =====
-- What is known after the wait of `clean` and `unjoin` for a resource to be gone.
use clusteradm.Base.{◌≡◌, ◌⊎◌, true, String}
use clusteradm.Effect.{Result, ok, err, Trace, Prog, Server, pure, fail}
use clusteradm.Effect.Runs.{call_answer}
use clusteradm.Effect.IfOk.{IfOk, IfOk-fail, IfOk-if, IfOk-bind_of}
use clusteradm.Errors.{Errors}
use clusteradm.Retry.{IsRetry}
use clusteradm.Removal.{Object, Call, Answer, delete, get, check_gone, gone}

module _ (X : Errors) (server : Server Call Answer X.Error) where
  -- The server answered NotFound to this call.
  abbrev pub IsMissing : Call → Type 0
  IsMissing (delete object) =
      (h : Trace Call) × (e : X.Error) × (server h (delete object) ≡ err e)
      × (X.is_not_found e ≡ true)
  IsMissing (get object) =
      (h : Trace Call) × (e : X.Error) × (server h (get object) ≡ err e) × (X.is_not_found e ≡ true)
  IsMissing _ = ⊥

  -- The object was not found, when it was to be deleted or later.
  abbrev pub IsRemoved : Object → Type 0
  IsRemoved object = IsMissing (delete object) ⊎ IsMissing (get object)

  gone-IsMissing :
      (object : Object) (message : String) (h : Trace Call) (r : Result X.Error (Unit {0}))
      → server h (get object) ≡ r
      → IfOk (IsMissing (get object)) (gone X server message r)
  unfolding gone
  gone-IsMissing object message h (ok _) e = IfOk-fail _
  gone-IsMissing object message h (err x) e =
      IfOk-if (X.is_not_found x) (pure tt) (fail x)
        (λ missing. record { at = λ _ _ _. (h, x, e, missing) }) (λ _. IfOk-fail x)

  pub check_gone-IsMissing :
      (object : Object) (message : String)
      → IfOk (IsMissing (get object)) (check_gone X server object message)
  unfolding check_gone
  check_gone-IsMissing object message =
      IfOk-bind_of _ _
        λ r h e. gone-IsMissing object message h r (call_answer server (get object) h r e)

  module _ (on_error : Prog Call X.Error (Unit {0}) → Prog Call X.Error (Unit {0}))
      (retry : IsRetry on_error) where
    -- A wait that ends without an error has seen that the object is missing.
    pub retry-IsMissing :
        (object : Object) (message : String)
        → IfOk (IsMissing (get object)) (on_error (check_gone X server object message))
    retry-IsMissing object message = record {
      at = λ h a done.
          let (h', seen) = retry.succeeded _ h done in
          (check_gone-IsMissing object message).at h' tt seen;
    }
