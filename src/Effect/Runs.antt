-- ===== src/Effect/Runs.antt =====
-- A run of a composed command from the runs of its parts.
use clusteradm.Base.{◌≡◌, refl, ◌⊎◌, inl, inr, [], ◌∷◌, ◌++◌}
use clusteradm.Effect.{
  Result, ok, err, Trace, Prog, ◌>>=◌, ◌>>◌, attempt, call, lift, request, Server,
}

pub Result-cases :
    {E A : Type 0} (r : Result E A) → ((a : A) × (r ≡ ok a)) ⊎ ((e : E) × (r ≡ err e))
Result-cases (ok a) = inl (a, refl)
Result-cases (err e) = inr (e, refl)

module _ {C E A B : Type 0} where
  pub bind_ok :
      (m : Prog C E A) (f : A → Prog C E B) (h : Trace C) {a : A} {new : Trace C} {r : Result E B}
      {later : Trace C}
      → m h ≡ (ok a, new)
      → f a (new ++ h) ≡ (r, later)
      → (m >>= f) h ≡ (r, later ++ new)
  unfolding ◌>>=◌
  bind_ok m f h p q = rw p (rw q)

  pub bind_result :
      (m : Prog C E A) (f : A → Prog C E B) (h : Trace C) {a : A} {new : Trace C} {r : Result E B}
      → m h ≡ (ok a, new)
      → (f a (new ++ h)).0 ≡ r
      → ((m >>= f) h).0 ≡ r
  unfolding ◌>>=◌
  bind_result m f h p q = rw p q

  pub bind_err :
      (m : Prog C E A) (f : A → Prog C E B) (h : Trace C) {e : E} {new : Trace C}
      → m h ≡ (err e, new)
      → (m >>= f) h ≡ (err e, new)
  unfolding ◌>>=◌
  bind_err m f h p = rw p

  pub then_ok :
      (m : Prog C E A) (n : Prog C E B) (h : Trace C) {a : A} {new : Trace C} {r : Result E B}
      {later : Trace C}
      → m h ≡ (ok a, new)
      → n (new ++ h) ≡ (r, later)
      → (m >> n) h ≡ (r, later ++ new)
  unfolding ◌>>◌
  then_ok m n h p q = bind_ok m (λ _. n) h p q

pub then_result :
    {C E A B : Type 0} (m : Prog C E A) (n : Prog C E B) (h : Trace C) {a : A} {new : Trace C}
    {r : Result E B}
    → m h ≡ (ok a, new)
    → (n (new ++ h)).0 ≡ r
    → ((m >> n) h).0 ≡ r
unfolding ◌>>◌
then_result m n h p q = bind_result m (λ _. n) h p q

-- The value of an attempt is the result of the run.
pub attempt_result :
    {C E A : Type 0} (m : Prog C E A) (h : Trace C) (r : Result E A)
    → (attempt m h).0 ≡ ok r
    → (m h).0 ≡ r
unfolding attempt
attempt_result m h r e = cc

module _ {C E A B : Type 0} where
  ok_after :
      (r : Result E A) (new : Trace C) (f : A → Prog C E B) (h : Trace C) (b : B)
      → (◌>>=◌ (λ (_ : Trace C). (r, new)) f h).0 ≡ ok b
      → (a : A) × (r ≡ ok a) × ((f a (new ++ h)).0 ≡ ok b)
  unfolding ◌>>=◌
  ok_after (ok a) new f h b e = (a, refl, e)
  ok_after (err x) new f h b e = absurd (cc)

  -- If a composed command succeeds, so do its parts.
  pub ok_bind :
      (m : Prog C E A) (f : A → Prog C E B) (h : Trace C) (b : B)
      → ((m >>= f) h).0 ≡ ok b
      → (a : A) × ((m h).0 ≡ ok a) × ((f a ((m h).1 ++ h)).0 ≡ ok b)
  unfolding ◌>>=◌
  ok_bind m f h b e = ok_after (m h).0 (m h).1 f h b e

pub attempt-call :
    {C E : Type 0} {Answer : C → Type 0} (server : Server C Answer E) (c : C) (h : Trace C)
    → attempt (call server c) h ≡ (ok (server h c), request c ∷ [])
unfolding attempt call
attempt-call server c h = refl

-- The value of an attempted call is the server's answer.
pub call_answer :
    {C E : Type 0} {Answer : C → Type 0} (server : Server C Answer E) (c : C) (h : Trace C)
    (r : Result E (Answer c))
    → (attempt (call server c) h).0 ≡ ok r
    → server h c ≡ r
unfolding attempt call
call_answer server c h r e = cc

-- What a lifted result answers.
pub lift_answer :
    {C E A : Type 0} (r : Result E A) (h : Trace C) (a : A) → (lift r h).0 ≡ ok a → r ≡ ok a
unfolding lift
lift_answer r h a e = e

-- The value of a call that succeeds is the server's answer.
pub call_ok :
    {C E : Type 0} {Answer : C → Type 0} (server : Server C Answer E) (c : C) (h : Trace C)
    (a : Answer c)
    → (call server c h).0 ≡ ok a
    → server h c ≡ ok a
unfolding call
call_ok server c h a e = e

pub call_run :
    {C E : Type 0} {Answer : C → Type 0} (server : Server C Answer E) (c : C) (h : Trace C)
    {r : Result E (Answer c)}
    → server h c ≡ r
    → call server c h ≡ (r, request c ∷ [])
unfolding call
call_run server c h e = λ i. (e i, request c ∷ [])

pub attempt_run :
    {C E A : Type 0} (m : Prog C E A) (h : Trace C) → attempt m h ≡ (ok (m h).0, (m h).1)
unfolding attempt
attempt_run m h = refl
