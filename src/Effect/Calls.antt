-- ===== src/Effect/Calls.antt =====
-- The calls of a run.
use clusteradm.Base.{◌≡◌, refl, ap, ◌∙◌, List, [], ◌∷◌, ◌++◌}
use clusteradm.Effect.{Result, ok, print, request, Trace, Prog, ◌>>=◌}
use clusteradm.Effect.Runs.{ok_bind, bind_ok}

-- The calls of a trace, the last one first.
abbrev pub calls_of : {C : Type 0} → Trace C → List C
calls_of [] = []
calls_of (print line ∷ tr) = calls_of tr
calls_of (request c ∷ tr) = c ∷ calls_of tr

-- The result of a run and its calls, the last one first.
abbrev pub outcome : {C E A : Type 0} → Result E A × Trace C → Result E A × List C
outcome (r, tr) = (r, calls_of tr)

pub calls_of-append :
    {C : Type 0} (new h : Trace C) → calls_of (new ++ h) ≡ calls_of new ++ calls_of h
calls_of-append [] h = refl
calls_of-append (print line ∷ new) h = calls_of-append new h
calls_of-append (request c ∷ new) h = ap (λ cs. c ∷ cs) (calls_of-append new h)

-- The calls of a composed command that succeeds are those of its parts.
pub calls_of-bind :
    {C E A B : Type 0} (m : Prog C E A) (f : A → Prog C E B) (h : Trace C) (b : B)
    → ((m >>= f) h).0 ≡ ok b
    → (a : A) × ((m h).0 ≡ ok a)
      × ((f a ((m h).1 ++ h)).0 ≡ ok b)
      × (calls_of ((m >>= f) h).1 ≡ calls_of (f a ((m h).1 ++ h)).1 ++ calls_of (m h).1)
calls_of-bind m f h b done =
    let (a, first, later) = ok_bind m f h b done in
    let run = bind_ok m f h (λ i. (first i, (m h).1)) refl in
    (a, first, later, ap (λ r. calls_of r.1) run ∙ calls_of-append (f a ((m h).1 ++ h)).1 (m h).1)
