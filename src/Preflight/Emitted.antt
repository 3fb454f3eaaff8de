-- ===== src/Preflight/Emitted.antt =====
-- The events of a run of the checks are those of the checks, and lines.
use clusteradm.Base.{String, ◌<>◌, List, [], ◌∷◌, All, text_eq}
use clusteradm.Effect.{Event, print, Trace}
use clusteradm.Effect.Emits.{
  Emits, emits_rules, Emits-pure, Emits-fail, Emits-if, Emits-say, Emits-bind, Emits-then,
}
use clusteradm.Errors.{Errors}
use clusteradm.Preflight.{Checker, run_check, warn, error_lines, check_each, report, run_checks}

module _ (X : Errors) {C : Type 0} (P : Event C → Type 0)
    (prints : (line : String) → P (print line)) where
  -- Every event of a check satisfies `P`.
  abbrev pub CheckEmits : Checker C X.Error → Type 0
  CheckEmits c = (h : Trace C) → All P (c.check h).1

  run_check-Emits : (c : Checker C X.Error) → CheckEmits c → Emits P (run_check X c)
  unfolding run_check
  run_check-Emits c k = record { at = λ h. k h }

  warn-Emits : (name : String) (warnings : List String) → Emits P (warn X name warnings)
  unfolding warn
  warn-Emits name [] = search emits_rules
  warn-Emits name (warning ∷ warnings) =
      Emits-then _ _ (Emits-say _ (prints _)) (warn-Emits name warnings)

  check_each-Emits :
      (checks : List (Checker C X.Error)) (buffer : String)
      → All CheckEmits checks
      → Emits P (check_each X checks buffer)
  unfolding check_each
  check_each-Emits [] buffer k = search emits_rules
  check_each-Emits (c ∷ checks) buffer k = Emits-bind _ _ (run_check-Emits c k.0) λ found.
      Emits-then _ _ (warn-Emits c.name found.0)
        (check_each-Emits checks (buffer <> error_lines X c.name found.1) k.1)

  report-Emits : (buffer : String) → Emits P (report X buffer)
  unfolding report
  report-Emits buffer = Emits-if (text_eq buffer "") _ _ (λ _. Emits-pure _) (λ _. Emits-fail _)

  pub run_checks-Emits :
      (checks : List (Checker C X.Error)) → All CheckEmits checks → Emits P (run_checks X checks)
  unfolding run_checks
  run_checks-Emits checks k = Emits-bind _ _ (check_each-Emits checks "" k) report-Emits
