-- ===== src/Effect/IfOk.antt =====
-- What is known once a command has succeeded.
use clusteradm.Base.{◌≡◌, refl, subst, Bool, true, false, ◌++◌, if◌then◌else◌}
use clusteradm.Effect.{ok, Trace, Prog, pure, fail, ◌>>=◌, ◌>>◌}
use clusteradm.Effect.Runs.{ok_bind}

-- If a run of `m` succeeds, `Q` holds.
pub record IfOk {C E A : Type 0} (Q : Type 0) (m : Prog C E A) : Type 0 where
  pub at : (h : Trace C) (a : A) → (m h).0 ≡ ok a → Q

module _ {C E : Type 0} {Q : Type 0} where
  pub IfOk-fail : {A : Type 0} (e : E) → IfOk {C = C} {A = A} Q (fail e)
  unfolding fail
  IfOk-fail e = record { at = λ h a done. absurd (cc) }

  pub IfOk-if :
      {A : Type 0} (b : Bool) (m n : Prog C E A)
      → (b ≡ true → IfOk Q m)
      → (b ≡ false → IfOk Q n)
      → IfOk Q (if b then m else n)
  IfOk-if true m n km kn = km refl
  IfOk-if false m n km kn = kn refl

  module _ {A B : Type 0} where
    pub IfOk-bind_left : (m : Prog C E A) (f : A → Prog C E B) → IfOk Q m → IfOk Q (m >>= f)
    IfOk-bind_left m f k = record {
      at = λ h b done. let (a, first, _) = ok_bind m f h b done in k.at h a first;
    }

    -- The rest may use what the first part answered.
    pub IfOk-bind_of :
        (m : Prog C E A) (f : A → Prog C E B)
        → ((a : A) (h : Trace C) → (m h).0 ≡ ok a → IfOk Q (f a))
        → IfOk Q (m >>= f)
    IfOk-bind_of m f k = record {
      at = λ h b done.
          let (a, first, later) = ok_bind m f h b done in (k a h first).at ((m h).1 ++ h) b later;
    }

    pub IfOk-then_left : (m : Prog C E A) (n : Prog C E B) → IfOk Q m → IfOk Q (m >> n)
    unfolding ◌>>◌
    IfOk-then_left m n k = IfOk-bind_left m (λ _. n) k

    pub IfOk-then_right : (m : Prog C E A) (n : Prog C E B) → IfOk Q n → IfOk Q (m >> n)
    unfolding ◌>>◌
    IfOk-then_right m n k = IfOk-bind_of m (λ _. n) (λ _ _ _. k)

-- Both parts of a command that succeeds have succeeded.
pub IfOk-then_both :
    {C E A B : Type 0} {P Q : Type 0} (m : Prog C E A) (n : Prog C E B)
    → IfOk P m
    → IfOk Q n
    → IfOk (P × Q) (m >> n)
IfOk-then_both m n k l = record {
  at = λ h b done. ((IfOk-then_left m n k).at h b done, (IfOk-then_right m n l).at h b done);
}

-- If a run of `m` succeeds, `R` holds of its answer.
pub record Gives {C E A : Type 0} (R : A → Type 0) (m : Prog C E A) : Type 0 where
  pub at : (h : Trace C) (a : A) → (m h).0 ≡ ok a → R a

module _ {C E A : Type 0} {R : A → Type 0} where
  pub Gives-pure : (a : A) → R a → Gives {C = C} {E = E} R (pure a)
  unfolding pure
  Gives-pure a r = record { at = λ h b e. let same : a ≡ b = cc in subst R same r }

  pub Gives-if :
      (b : Bool) (m n : Prog C E A)
      → (b ≡ true → Gives R m)
      → (b ≡ false → Gives R n)
      → Gives R (if b then m else n)
  Gives-if true m n km kn = km refl
  Gives-if false m n km kn = kn refl

  pub Gives-bind_of :
      {B : Type 0} (m : Prog C E B) (f : B → Prog C E A)
      → ((b : B) (h : Trace C) → (m h).0 ≡ ok b → Gives R (f b))
      → Gives R (m >>= f)
  Gives-bind_of m f k = record {
    at = λ h a done.
        let (b, first, later) = ok_bind m f h a done in (k b h first).at ((m h).1 ++ h) a later;
  }

module _ {C E A : Type 0} {R : A → Type 0} where
  pub Gives-fail : (e : E) → Gives {C = C} R (fail e)
  unfolding fail
  Gives-fail e = record { at = λ h a done. absurd (cc) }

  pub Gives-unless :
      (b : Bool) (e : E) (m : Prog C E A) → Gives R m → Gives R (if b then fail e else m)
  Gives-unless b e m k = Gives-if b _ _ (λ _. Gives-fail e) (λ _. k)

  pub Gives-then : {B : Type 0} (m : Prog C E B) (n : Prog C E A) → Gives R n → Gives R (m >> n)
  unfolding ◌>>◌
  Gives-then m n k = Gives-bind_of m (λ _. n) (λ _ _ _. k)
