-- ===== src/Accept/Approve/Before.antt =====
-- Whether a request was approved before, which `approveCSR` counts as a success.
use clusteradm.Base.{
  ◌≡◌, refl, sym, ap, ◌∙◌, ◌↔◌, ◌⊎◌, inl, inr, Bool, true, false, not, ◌&&◌, List, [], ◌∷◌, In,
  Bool-cases, arith,
}
use clusteradm.Accept.{Csr, passed_csrs, is_approved, is_denied}
use clusteradm.Accept.Requesters.{
  HasRequester, has_condition, is_approved-eq, is_denied-eq, In-passed_csrs, passed_csrs-In,
}
use clusteradm.Accept.Approve.Justified.{some_approved}

-- A listed request with the right requester, if this is checked, is approved already and not denied.
abbrev pub WasApproved : Bool → List Csr → Type 0
WasApproved skip items =
    (csr : Csr) × In csr items
    × ((skip ≡ true) ⊎ HasRequester csr)
    × (has_condition "Approved" csr.conditions ≡ true)
    × (has_condition "Denied" csr.conditions ≡ false)

abbrev Counts : Csr → Type 0
Counts csr = (is_denied csr ≡ false) × (is_approved csr ≡ true)

some_approved-In :
    (csrs : List Csr) → (some_approved csrs ≡ true) ↔ ((csr : Csr) × In csr csrs × Counts csr)
some_approved-In [] = ((λ e. absurd (cc)), (λ (csr, i, c). elim i [ ]))
some_approved-In (csr ∷ csrs) = (
  (λ e. elim (Bool-cases (not (is_denied csr) && is_approved csr)) [
    | inl here ↦ (csr, inl refl, (ground arith, ground arith))
    | inr other ↦
        let e' : some_approved csrs ≡ true = rw other at e in
        let (c, i, k) = (some_approved-In csrs).0 e' in (c, inr i, k)
  ]),
  (λ (c, i, k). elim i [
    | inl here ↦
        let free : is_denied csr ≡ false = ap is_denied (sym here) ∙ k.0 in
        let ready : is_approved csr ≡ true = ap is_approved (sym here) ∙ k.1 in ground arith
    | inr later ↦ let rest = (some_approved-In csrs).1 (c, later, k) in ground arith
  ]),
)

pub some_approved-WasApproved :
    (skip : Bool) (items : List Csr)
    → (some_approved (passed_csrs skip items) ≡ true) ↔ WasApproved skip items
some_approved-WasApproved skip items = (
  (λ e.
      let (csr, i, (free, ready)) = (some_approved-In (passed_csrs skip items)).0 e in
      let (listed, right) = In-passed_csrs skip csr items i in
      (csr, listed, right, sym (is_approved-eq csr) ∙ ready, sym (is_denied-eq csr) ∙ free)),
  (λ (csr, listed, right, ready, free). (some_approved-In (passed_csrs skip items)).1 (
    csr,
    passed_csrs-In skip csr items listed right,
    (is_denied-eq csr ∙ free, is_approved-eq csr ∙ ready),
  )),
)
