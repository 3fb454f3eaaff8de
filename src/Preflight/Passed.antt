-- ===== src/Preflight/Passed.antt =====
-- When the checks pass.
use Prim.Native.String.{count}
use text.Mathlib.TextLemmas.{length-append, length-eq-zero_iff}
use clusteradm.Base.{
  ◌≡◌, refl, sym, ap, ◌∙◌, ◌↔◌, String, ◌<>◌, List, [], ◌∷◌, ◌++◌, text_eq, eq_iff, arith,
  Bool-cases, inl, inr,
}
use clusteradm.Effect.{ok, print, Trace, pure, fail, say}
use clusteradm.Effect.Runs.{bind_ok, then_ok}
use clusteradm.Errors.{Errors}
use clusteradm.Preflight.{Checker, run_check, warn, error_lines, check_each, report, run_checks}

append_empty : (s t : String) → (s <> t ≡ "") ↔ ((s ≡ "") × (t ≡ ""))
append_empty s t = (
  (λ e. (
    length-eq-zero_iff.0 (omega (arith, length-append s t, ap count e)),
    length-eq-zero_iff.0 (omega (arith, length-append s t, ap count e)),
  )),
  (λ (p, q) i. p i <> q i),
)

-- A line of an error is not empty.
line_ne : (s t : String) → ("\t[ERROR " <> s) <> t ≡ "" → ⊥
line_ne s t e =
    let first : "\t[ERROR " <> s ≡ "" = ((append_empty ("\t[ERROR " <> s) t).0 e).0 in
    let tag : Path String "\t[ERROR " "" = ((append_empty "\t[ERROR " s).0 first).0 in
    absurd (omega (arith, ap count tag))

error_lines_empty :
    (X : Errors) (name : String) (errs : List X.Error)
    → (error_lines X name errs ≡ "") ↔ (errs ≡ [])
unfolding error_lines
error_lines_empty X name [] = ((λ _. refl), (λ _. refl))
error_lines_empty X name (e ∷ errs) = (
  (λ h. absurd (line_ne (name <> "]: " <> X.text e <> "\n") (error_lines X name errs) h)),
  (λ h. absurd (cc)),
)

module _ (X : Errors) {C : Type 0} where
  -- The lines of the warnings, the last one first.
  abbrev pub warned : String → List String → Trace C
  warned name [] = []
  warned name (warning ∷ warnings) =
      warned name warnings ++ (print ("\t[WARNING " <> name <> "]: " <> warning <> "\n") ∷ [])

  -- Each check, one after the other, answers no error.
  abbrev pub AllPass : List (Checker C X.Error) → Trace C → Type 0
  AllPass [] h = Unit
  AllPass (c ∷ checks) h =
      ((c.check h).0.1 ≡ [])
      × AllPass checks (warned c.name (c.check h).0.0 ++ ((c.check h).1 ++ h))

  -- The events of all checks, each run after those before it and followed by its warnings, the last event
  -- first, whatever the checks answer.
  abbrev pub all_ran : List (Checker C X.Error) → Trace C → Trace C
  all_ran [] h = []
  all_ran (c ∷ checks) h =
      (all_ran checks (warned c.name (c.check h).0.0 ++ ((c.check h).1 ++ h))
        ++ warned c.name (c.check h).0.0)
      ++ (c.check h).1

  say_run : (line : String) (h : Trace C) → say {E = X.Error} line h ≡ (ok tt, print line ∷ [])
  unfolding say
  say_run line h = refl

  run_check_run :
      (c : Checker C X.Error) (h : Trace C) → run_check X c h ≡ (ok (c.check h).0, (c.check h).1)
  unfolding run_check
  run_check_run c h = refl

  warn_run :
      (name : String) (warnings : List String) (h : Trace C)
      → warn X name warnings h ≡ (ok tt, warned name warnings)
  unfolding warn
  warn_run name [] h = unfold pure in refl
  warn_run name (warning ∷ warnings) h =
      let line = "\t[WARNING " <> name <> "]: " <> warning <> "\n" in
      then_ok (say line) (warn X name warnings) h (say_run line h) (warn_run name warnings _)

  check_each_run :
      (checks : List (Checker C X.Error)) (buffer : String) (h : Trace C)
      → (new : String) × (check_each X checks buffer h ≡ (ok new, all_ran checks h))
        × ((new ≡ "") ↔ ((buffer ≡ "") × AllPass checks h))
  unfolding check_each
  check_each_run [] buffer h = (buffer, unfold pure in refl, ((λ e. (e, tt)), (λ (e, _). e)))
  check_each_run (c ∷ checks) buffer h =
      let found = c.check h in
      let lines = error_lines X c.name found.0.1 in
      let (new, ran, same) =
        check_each_run checks (buffer <> lines) (warned c.name found.0.0 ++ (found.1 ++ h)) in
      let rest = check_each X checks (buffer <> lines) in
      let empty = error_lines_empty X c.name found.0.1 in
      (
        new,
        bind_ok (run_check X c) _ h (run_check_run c h) (
            then_ok (warn X c.name found.0.0) rest (found.1 ++ h)
              (warn_run c.name found.0.0 (found.1 ++ h)) ran),
        (
          (λ e.
              let (b, passed) = same.0 e in
              let (p, q) = (append_empty buffer lines).0 b in (p, (empty.0 q, passed))),
          (λ (p, (q, passed)). same.1 ((append_empty buffer lines).1 (p, empty.1 q), passed)),
        ),
      )

  report_ok : (buffer : String) (h : Trace C) → ((report X buffer h).0 ≡ ok tt) ↔ (buffer ≡ "")
  unfolding report pure fail
  report_ok buffer h = elim (Bool-cases (text_eq buffer "")) [
    | inl same ↦ rw same ((λ _. (eq_iff buffer "").0 same), (λ _. refl))
    | inr differ ↦
        rw differ ((λ e. absurd (cc)), (λ e. absurd (cc (differ, (eq_iff buffer "").1 e))))
  ]

  report_quiet : (buffer : String) (h : Trace C) → (report X buffer h).1 ≡ []
  unfolding report pure fail
  report_quiet buffer h = elim (Bool-cases (text_eq buffer "")) [
    | inl same ↦ rw same refl
    | inr differ ↦ rw differ refl
  ]

  -- `RunChecks` runs every check in turn and prints its warnings, also after one with errors, and succeeds
  -- exactly when no check answers an error; warnings do not matter.
  pub run_checks-AllPass :
      (checks : List (Checker C X.Error)) (h : Trace C)
      → ((run_checks X checks h).1 ≡ all_ran checks h)
        × (((run_checks X checks h).0 ≡ ok tt) ↔ AllPass checks h)
  unfolding run_checks
  run_checks-AllPass checks h =
      let (new, ran, same) = check_each_run checks "" h in
      let each = check_each X checks "" in
      let after = all_ran checks h ++ h in
      let run : run_checks X checks h
          ≡ ((report X new after).0, (report X new after).1 ++ all_ran checks h) =
        bind_ok each (report X) h ran refl in
      let reported = report_ok new after in
      (
        ap (λ r. r.1) run ∙ ap (λ t. t ++ all_ran checks h) (report_quiet new after),
        (
          (λ e. (same.0 (reported.0 (sym (ap (λ r. r.0) run) ∙ e))).1),
          (λ passed. ap (λ r. r.0) run ∙ reported.1 (same.1 (refl, passed))),
        ),
      )
