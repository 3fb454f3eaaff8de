-- ===== src/Preflight.antt =====
-- pkg/helpers/preflight/interface.go: the checks before a command runs.
pub mod Passed
pub mod Emitted
pub mod HubKubeconfig
pub mod ClusterInfo
mod Tests
use clusteradm.Base.{String, ◌<>◌, List, [], ◌∷◌, text_eq, if◌then◌else◌}
use clusteradm.Effect.{Result, ok, err, Trace, Prog, pure, fail, say, ◌>>=◌, ◌>>◌}
use clusteradm.Errors.{Errors}

-- A check answers its warnings and its errors, and may make calls.
pub record Checker (C E : Type 0) : Type 0 where
  pub name : String
  pub check : Trace C → (List String × List E) × Trace C

module _ (X : Errors) where
  open X use {Error, text}

  -- What the loop over the errors adds to the buffer.
  unfoldable pub error_lines : String → List Error → String
  error_lines name [] = ""
  error_lines name (e ∷ errs) =
      ("\t[ERROR " <> name <> "]: " <> text e <> "\n") <> error_lines name errs

module _ (X : Errors) {C : Type 0} where
  open X use {Error, errorf}

  unfoldable pub run_check : Checker C Error → Prog C Error (List String × List Error)
  run_check c h = (ok (c.check h).0, (c.check h).1)

  -- The loop over the warnings, which are written at once.
  unfoldable pub warn : String → List String → Prog C Error (Unit {0})
  warn name [] = pure tt
  warn name (warning ∷ warnings) = do
    say ("\t[WARNING " <> name <> "]: " <> warning <> "\n")
    warn name warnings

  -- The loop over the checks, with the buffer.
  unfoldable pub check_each : List (Checker C Error) → String → Prog C Error String
  check_each [] buffer = pure buffer
  check_each (c ∷ checks) buffer = do
    (warnings, errs) ← run_check c
    warn c.name warnings
    check_each checks (buffer <> error_lines X c.name errs)

  -- The `Error` of the package, by its text.
  unfoldable pub report : String → Prog C Error (Unit {0})
  report buffer =
      if text_eq buffer ""
      then pure tt
      else fail (errorf ("[preflight] Some fatal errors occurred:\n" <> buffer))

  -- `RunChecks`
  unfoldable pub run_checks : List (Checker C Error) → Prog C Error (Unit {0})
  run_checks checks = do buffer ← check_each checks ""; report buffer
