-- ===== src/Effect/Emits.antt =====
-- The events that a command adds, one rule for each way to build a command.
use clusteradm.Base.{
  ◌≡◌, refl, Bool, true, false, String, Option, none, some, List, [], ◌∷◌, ◌++◌, All, if◌then◌else◌,
}
use clusteradm.Effect.{
  Result, ok, err, Event, print, request, Trace, Prog, Server, pure, fail, say, call, ◌>>=◌, ◌>>◌,
  attempt, lift, return_error,
}

pub All-append {ℓ κ} :
    {A : Type ℓ} (P : A → Type κ) (xs ys : List A) → All P xs → All P ys → All P (xs ++ ys)
All-append P [] ys hx hy = hy
All-append P (x ∷ xs) ys hx hy = (hx.0, All-append P xs ys hx.1 hy)

-- After any trace, every event that `m` adds satisfies `P`.
pub record Emits {C E A : Type 0} (P : Event C → Type 0) (m : Prog C E A) : Type 0 where
  pub at : (h : Trace C) → All P (m h).1

module _ {C E : Type 0} {P : Event C → Type 0} where
  module _ {A : Type 0} where
    pub Emits-pure : (a : A) → Emits {E = E} P (pure a)
    unfolding pure
    Emits-pure a = record { at = λ h. tt }

    pub Emits-fail : (e : E) → Emits {A = A} P (fail e)
    unfolding fail
    Emits-fail e = record { at = λ h. tt }

    pub Emits-lift : (r : Result E A) → Emits P (lift r)
    unfolding lift
    Emits-lift r = record { at = λ h. tt }

    pub Emits-attempt : (m : Prog C E A) → Emits P m → Emits P (attempt m)
    unfolding attempt
    Emits-attempt m k = record { at = λ h. k.at h }

    pub Emits-if :
        (b : Bool) (m n : Prog C E A)
        → (b ≡ true → Emits P m)
        → (b ≡ false → Emits P n)
        → Emits P (if b then m else n)
    Emits-if true m n km kn = km refl
    Emits-if false m n km kn = kn refl

  pub Emits-say : (line : String) → P (print line) → Emits {E = E} P (say line)
  unfolding say
  Emits-say line p = record { at = λ h. (p, tt) }

  pub Emits-return_error : (e : Option E) → Emits P (return_error e)
  unfolding return_error
  Emits-return_error none = record { at = λ h. tt }
  Emits-return_error (some e) = record { at = λ h. tt }

  pub Emits-call :
      {Answer : C → Type 0} (server : Server C Answer E) (c : C)
      → P (request c)
      → Emits P (call server c)
  unfolding call
  Emits-call server c p = record { at = λ h. (p, tt) }

  module _ {A B : Type 0} where
    bind_at :
        (r : Result E A) (new : Trace C) (f : A → Prog C E B)
        → All P new
        → ((a : A) → Emits P (f a))
        → Emits P (λ h. ((λ (_ : Trace C). (r, new)) >>= f) h)
    unfolding ◌>>=◌
    bind_at (ok a) new f kn kf = record {
      at = λ h. All-append P (f a (new ++ h)).1 new ((kf a).at (new ++ h)) kn;
    }
    bind_at (err e) new f kn kf = record { at = λ h. kn }

    pub Emits-bind :
        (m : Prog C E A) (f : A → Prog C E B)
        → Emits P m
        → ((a : A) → Emits P (f a))
        → Emits P (m >>= f)
    unfolding ◌>>=◌
    Emits-bind m f km kf = record { at = λ h. (bind_at (m h).0 (m h).1 f (km.at h) kf).at h }

    -- The rest may use what the first part answers.
    pub Emits-bind_of :
        (m : Prog C E A) (f : A → Prog C E B)
        → Emits P m
        → ((a : A) (h : Trace C) → (m h).0 ≡ ok a → Emits P (f a))
        → Emits P (m >>= f)
    unfolding ◌>>=◌
    Emits-bind_of m f km kf = record { at = λ h. after (m h).0 (m h).1 h refl (km.at h) }
      where
        after :
            (r : Result E A) (new h : Trace C)
            → (m h).0 ≡ r
            → All P new
            → All P (◌>>=◌ (λ (_ : Trace C). (r, new)) f h).1
        after (ok a) new h e kn = All-append P (f a (new ++ h)).1 new ((kf a h e).at (new ++ h)) kn
        after (err _) new h e kn = kn

    pub Emits-then : (m : Prog C E A) (n : Prog C E B) → Emits P m → Emits P n → Emits P (m >> n)
    unfolding ◌>>◌
    Emits-then m n km kn = Emits-bind m (λ _. n) km (λ _. kn)

pub ruleset emits_rules = (
  Emits-pure, Emits-fail, Emits-lift, Emits-attempt, Emits-if, Emits-say, Emits-return_error,
  Emits-call, Emits-bind, Emits-then,
)
