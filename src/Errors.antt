-- ===== src/Errors.antt =====
-- Go's `error` values, as far as the commands use them: fmt.Errorf and errors.New, the predicates of
-- k8s.io/apimachinery/pkg/api/errors, and NewAggregate of its util/errors. These are other projects'
-- code, so they are an interface, and what is documented of them is its laws.
use clusteradm.Base.{
  ◌≡◌, refl, ◌↔◌, Bool, true, false, String, ◌<>◌, Option, none, some, List, [], ◌∷◌, if◌then◌else◌,
  arith,
}

pub record Errors : Type 1 where
  pub Error : Type 0
  -- fmt.Errorf of a formatted text without %w, and errors.New
  pub errorf : String → Error
  -- the method Error
  pub text : Error → String
  pub is_not_found : Error → Bool
  pub is_already_exists : Error → Bool
  pub new_not_found : String → Error
  -- util/errors.NewAggregate, where `none` is nil
  pub new_aggregate : List (Option Error) → Option Error

-- Whether all errors of a list are nil.
abbrev pub all_nil {ℓ} : {E : Type ℓ} → List (Option E) → Bool
all_nil [] = true
all_nil (none ∷ es) = all_nil es
all_nil (some e ∷ es) = false

pub record IsLawful (X : Errors) : Type 0 where
  pub text-errorf : (s : String) → X.text (X.errorf s) ≡ s
  pub is_not_found-errorf : (s : String) → X.is_not_found (X.errorf s) ≡ false
  pub is_already_exists-errorf : (s : String) → X.is_already_exists (X.errorf s) ≡ false
  pub is_not_found-new_not_found : (s : String) → X.is_not_found (X.new_not_found s) ≡ true
  pub new_aggregate_nil :
      (es : List (Option X.Error)) → (X.new_aggregate es ≡ none) ↔ (all_nil es ≡ true)

-- A concrete meaning: an error is its text, or an API status with a reason.
pub data Status : Type 0 where
  plain : String → Status
  not_found : String → Status
  already_exists : String → Status

abbrev status_text : Status → String
status_text (plain s) = s
status_text (not_found s) = s
status_text (already_exists s) = s

abbrev joined : List (Option Status) → String
joined [] = ""
joined (none ∷ es) = joined es
joined (some e ∷ es) = status_text e <> ", " <> joined es

abbrev aggregate : List (Option Status) → Option Status
aggregate es = if all_nil es then none else some (plain (joined es))

abbrev pub status_errors : Errors
status_errors = record {
  Error = Status;
  errorf = plain;
  text = status_text;
  is_not_found = λ e. elim e [ not_found s ↦ true | _ ↦ false ];
  is_already_exists = λ e. elim e [ already_exists s ↦ true | _ ↦ false ];
  new_not_found = not_found;
  new_aggregate = aggregate;
}

aggregate_nil : (es : List (Option Status)) → (aggregate es ≡ none) ↔ (all_nil es ≡ true)
aggregate_nil es = ground arith

pub status_errors-IsLawful : IsLawful status_errors
status_errors-IsLawful = record {
  text-errorf = λ s. refl;
  is_not_found-errorf = λ s. refl;
  is_already_exists-errorf = λ s. refl;
  is_not_found-new_not_found = λ s. refl;
  new_aggregate_nil = aggregate_nil;
}
