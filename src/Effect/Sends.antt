-- ===== src/Effect/Sends.antt =====
-- The events that a command is sure to add, always or where it succeeds.
use clusteradm.Base.{◌≡◌, refl, inl, ◌++◌, In, In-append_left, In-append_right}
use clusteradm.Effect.{
  Result, ok, err, Event, request, Trace, Prog, Server, call, ◌>>=◌, ◌>>◌, attempt,
}

-- After any trace, `m` adds the event.
pub record Sends {C E A : Type 0} (e : Event C) (m : Prog C E A) : Type 0 where
  pub at : (h : Trace C) → In e (m h).1

-- After any trace after which `m` succeeds, it adds the event.
pub record SendsIfOk {C E A : Type 0} (e : Event C) (m : Prog C E A) : Type 0 where
  pub at : (h : Trace C) (a : A) → (m h).0 ≡ ok a → In e (m h).1

module _ {C E : Type 0} where
  pub Sends-call :
      {Answer : C → Type 0} (server : Server C Answer E) (c : C) → Sends (request c) (call server c)
  unfolding call
  Sends-call server c = record { at = λ h. inl refl }

module _ {C E A B : Type 0} (e : Event C) where
  sends_after :
      (r : Result E A) (new : Trace C) (f : A → Prog C E B) (h : Trace C)
      → In e new
      → In e (◌>>=◌ (λ (_ : Trace C). (r, new)) f h).1
  unfolding ◌>>=◌
  sends_after (ok a) new f h i = In-append_right e (f a (new ++ h)).1 new i
  sends_after (err x) new f h i = i

  ok_left :
      (r : Result E A) (new : Trace C) (f : A → Prog C E B) (h : Trace C) (b : B)
      → ((a : A) → r ≡ ok a → In e new)
      → (◌>>=◌ (λ (_ : Trace C). (r, new)) f h).0 ≡ ok b
      → In e (◌>>=◌ (λ (_ : Trace C). (r, new)) f h).1
  unfolding ◌>>=◌
  ok_left (ok a) new f h b s ended = In-append_right e (f a (new ++ h)).1 new (s a refl)
  ok_left (err x) new f h b s ended = absurd (cc)

  ok_right :
      (r : Result E A) (new : Trace C) (f : A → Prog C E B) (h : Trace C) (b : B)
      → ((a : A) → SendsIfOk e (f a))
      → (◌>>=◌ (λ (_ : Trace C). (r, new)) f h).0 ≡ ok b
      → In e (◌>>=◌ (λ (_ : Trace C). (r, new)) f h).1
  unfolding ◌>>=◌
  ok_right (ok a) new f h b s ended =
      In-append_left e (f a (new ++ h)).1 new ((s a).at (new ++ h) b ended)
  ok_right (err x) new f h b s ended = absurd (cc)

module _ {C E : Type 0} {e : Event C} where
  pub Sends-attempt : {A : Type 0} (m : Prog C E A) → Sends e m → Sends e (attempt m)
  unfolding attempt
  Sends-attempt m s = record { at = λ h. s.at h }

  pub SendsIfOk-Sends : {A : Type 0} (m : Prog C E A) → Sends e m → SendsIfOk e m
  SendsIfOk-Sends m s = record { at = λ h a ended. s.at h }

  module _ {A B : Type 0} where
    pub Sends-bind : (m : Prog C E A) (f : A → Prog C E B) → Sends e m → Sends e (m >>= f)
    unfolding ◌>>=◌
    Sends-bind m f s = record { at = λ h. sends_after e (m h).0 (m h).1 f h (s.at h) }

    pub SendsIfOk-bind_left :
        (m : Prog C E A) (f : A → Prog C E B) → SendsIfOk e m → SendsIfOk e (m >>= f)
    unfolding ◌>>=◌
    SendsIfOk-bind_left m f s = record {
      at = λ h b ended. ok_left e (m h).0 (m h).1 f h b (s.at h) ended;
    }

    pub SendsIfOk-bind_right :
        (m : Prog C E A) (f : A → Prog C E B)
        → ((a : A) → SendsIfOk e (f a))
        → SendsIfOk e (m >>= f)
    unfolding ◌>>=◌
    SendsIfOk-bind_right m f s = record {
      at = λ h b ended. ok_right e (m h).0 (m h).1 f h b s ended;
    }

    pub SendsIfOk-then_left :
        (m : Prog C E A) (n : Prog C E B) → SendsIfOk e m → SendsIfOk e (m >> n)
    unfolding ◌>>◌
    SendsIfOk-then_left m n s = SendsIfOk-bind_left m (λ _. n) s

    pub SendsIfOk-then_right :
        (m : Prog C E A) (n : Prog C E B) → SendsIfOk e n → SendsIfOk e (m >> n)
    unfolding ◌>>◌
    SendsIfOk-then_right m n s = SendsIfOk-bind_right m (λ _. n) (λ _. s)
