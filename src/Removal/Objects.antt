-- ===== src/Removal/Objects.antt =====
-- The deletions go on after an error, and succeed exactly when each object is deleted or missing.
use mathlib.Core.List.{append-nil, append_assoc}
use clusteradm.Base.{
  ◌≡◌, refl, sym, ap, ◌∙◌, ◌↔◌, Bool, true, Option, none, some, List, [], ◌∷◌, ◌++◌, map,
  if◌then◌else◌, arith,
}
use clusteradm.Effect.{Result, ok, err, request, Trace, Server, pure, call, attempt, return_error}
use clusteradm.Effect.Runs.{bind_ok, attempt-call}
use clusteradm.Errors.{Errors, IsLawful, all_nil}
use clusteradm.Removal.{Object, Call, Answer, delete, note_error, delete_each, delete_all}

module _ (X : Errors) where
  -- The object is deleted, or it was not there.
  abbrev pub tolerated : Result X.Error (Unit {0}) → Bool
  tolerated (ok _) = true
  tolerated (err e) = X.is_not_found e

  abbrev own : Result X.Error (Unit {0}) → List X.Error
  own (ok _) = []
  own (err e) = if X.is_not_found e then [] else e ∷ []

-- The calls for the deletions, the last one first.
abbrev pub asked : List Object → Trace Call
asked [] = []
asked (object ∷ objects) = asked objects ++ (request (delete object) ∷ [])

module _ (X : Errors) (server : Server Call Answer X.Error) where
  -- Each deletion, one after the other, was answered with success or NotFound.
  abbrev pub AllGone : List Object → Trace Call → Type 0
  AllGone [] h = Unit
  AllGone (object ∷ objects) h =
      (tolerated X (server h (delete object)) ≡ true)
      × AllGone objects (request (delete object) ∷ h)

  note_error-own :
      (errs : List X.Error) (r : Result X.Error (Unit {0}))
      → note_error X server errs r ≡ errs ++ own X r
  unfolding note_error
  note_error-own errs (ok _) = sym (append-nil errs)
  note_error-own errs (err e) = ground (arith, append-nil errs)

  own_nil :
      (r : Result X.Error (Unit {0})) (new : List X.Error)
      → (own X r ++ new ≡ []) ↔ ((tolerated X r ≡ true) × (new ≡ []))
  own_nil (ok _) new = ((λ e. (refl, e)), (λ p. p.1))
  own_nil (err e) new = (ground arith, ground arith)

  delete_each_run :
      (objects : List Object) (errs : List X.Error) (h : Trace Call)
      → (new : List X.Error) × (delete_each X server objects errs h
          ≡ (ok (errs ++ new), asked objects))
        × ((new ≡ []) ↔ AllGone objects h)
  unfolding delete_each pure
  delete_each_run [] errs h =
      ([], (λ i. (ok (sym (append-nil errs) i), [])), ((λ _. tt), (λ _. refl)))
  delete_each_run (object ∷ objects) errs h =
      let r = server h (delete object) in
      let (new, ran, same) =
        delete_each_run objects (note_error X server errs r) (request (delete object) ∷ h) in
      let joined : note_error X server errs r ++ new ≡ errs ++ (own X r ++ new) =
        ap (λ l. l ++ new) (note_error-own errs r) ∙ append_assoc errs (own X r) new in
      (
        own X r ++ new,
        bind_ok (attempt (call server (delete object))) _ h (attempt-call server (delete object) h)
            (ran ∙ (λ i. (ok (joined i), asked objects))),
        (
          (λ n. let (t, m) = (own_nil r new).0 n in (t, same.0 m)),
          (λ a. (own_nil r new).1 (a.0, same.1 a.1)),
        ),
      )

  -- `return err`
  abbrev returned : Option X.Error → Result X.Error (Unit {0})
  returned none = ok tt
  returned (some e) = err e

  return_error_run : (e : Option X.Error) (h : Trace Call) → return_error e h ≡ (returned e, [])
  unfolding return_error
  return_error_run none h = refl
  return_error_run (some e) h = refl

  all_nil-some : (new : List X.Error) → (all_nil (map some new) ≡ true) ↔ (new ≡ [])
  all_nil-some [] = ((λ _. refl), (λ _. refl))
  all_nil-some (e ∷ es) = ((λ h. absurd (cc)), (λ h. absurd (cc)))

  returned-ok : (e : Option X.Error) → (returned e ≡ ok tt) ↔ (e ≡ none)
  returned-ok none = ((λ _. refl), (λ _. refl))
  returned-ok (some e) = ((λ h. absurd (cc)), (λ h. absurd (cc)))

  -- The deletions of `clean` and `unjoin` ask for each of their objects in order, whatever the errors,
  -- and succeed exactly when each object was deleted or not found.
  delete_all_run :
      IsLawful X
      → (objects : List Object) (h : Trace Call)
      → ((delete_all X server objects h).1 ≡ asked objects)
        × (((delete_all X server objects h).0 ≡ ok tt) ↔ AllGone objects h)
  unfolding delete_all
  delete_all_run L objects h =
      let (new, ran, same) = delete_each_run objects [] h in
      let e = X.new_aggregate (map some new) in
      let ended : delete_all X server objects h ≡ (returned e, asked objects) =
        bind_ok (delete_each X server objects []) _ h ran (return_error_run e _) in
      let nil = L.new_aggregate_nil (map some new) in
      (
        ap (λ p. p.1) ended,
        (
          (λ p.
              same.0
                ((all_nil-some new).0 (nil.0 ((returned-ok e).0 (sym (ap (λ q. q.0) ended) ∙ p))))),
          (λ a. ap (λ q. q.0) ended ∙ (returned-ok e).1 (nil.1 ((all_nil-some new).1 (same.1 a)))),
        ),
      )
