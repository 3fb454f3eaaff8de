-- ===== src/Accept/Requesters.antt =====
-- The checks of pkg/cmd/accept/exec.go on one signing request, against independent descriptions.
use clusteradm.Base.{
  ◌≡◌, refl, ◌⊎◌, inl, inr, Bool, true, false, ◌&&◌, ◌||◌, not, String, List, [], ◌∷◌, text_eq,
  starts_with, contains, if◌then◌else◌, arith, In, select, In-select, select-In,
}
use clusteradm.Accept.{
  Condition, Csr, group_name_bootstrap, user_name_signature_bootstrap_prefix,
  user_name_signature_sa, group_name_sa, cert_approval_condition, is_approved, is_denied,
  correct_requester, passed_csrs,
}

-- Some condition of the request has this type.
abbrev pub has_condition : String → List Condition → Bool
has_condition kind [] = false
has_condition kind (c ∷ cs) = text_eq c.kind kind || has_condition kind cs

cert_approval_condition-from :
    (cs : List Condition) (approved denied : Bool)
    → cert_approval_condition cs (approved, denied)
      ≡ (approved || has_condition "Approved" cs, denied || has_condition "Denied" cs)
unfolding cert_approval_condition
cert_approval_condition-from [] approved denied = ground arith
cert_approval_condition-from (c ∷ cs) approved denied = ground (
  arith,
  cert_approval_condition-from cs (if text_eq c.kind "Approved" then true else approved)
      (if text_eq c.kind "Denied" then true else denied),
)

pub is_approved-eq : (csr : Csr) → is_approved csr ≡ has_condition "Approved" csr.conditions
is_approved-eq csr = ground (arith, cert_approval_condition-from csr.conditions false false)

pub is_denied-eq : (csr : Csr) → is_denied csr ≡ has_condition "Denied" csr.conditions
is_denied-eq csr = ground (arith, cert_approval_condition-from csr.conditions false false)

-- The requester's name has one of the two prefixes, and it is in one of the two groups.
abbrev pub HasRequester : Csr → Type 0
HasRequester csr =
    ((starts_with csr.username user_name_signature_bootstrap_prefix ≡ true)
      ⊎ (starts_with csr.username user_name_signature_sa ≡ true))
    × ((contains csr.groups group_name_bootstrap ≡ true)
        ⊎ (contains csr.groups group_name_sa ≡ true))

pub correct_requester_sound : (csr : Csr) → correct_requester csr ≡ true → HasRequester csr
unfolding correct_requester
correct_requester_sound csr h = ground arith

pub correct_requester_complete : (csr : Csr) → HasRequester csr → correct_requester csr ≡ true
unfolding correct_requester
correct_requester_complete csr h = ground arith

-- A request that the command may approve: its requester is right, unless the check is skipped, and it
-- is neither approved nor denied.
pub record IsEligible (skip : Bool) (csr : Csr) : Type 0 where
  pub requester : (skip ≡ true) ⊎ HasRequester csr
  pub undecided :
      (has_condition "Approved" csr.conditions ≡ false)
      × (has_condition "Denied" csr.conditions ≡ false)

abbrev pub is_pending : Csr → Bool
is_pending csr = not (is_denied csr) && not (is_approved csr)

-- What is left to approve of the listed requests.
unfoldable pub to_approve : Bool → List Csr → List Csr
to_approve skip items = select is_pending (passed_csrs skip items)

pub is_pending_undecided :
    (csr : Csr)
    → is_pending csr ≡ true
    → (has_condition "Approved" csr.conditions ≡ false)
      × (has_condition "Denied" csr.conditions ≡ false)
is_pending_undecided csr h = ground (arith, is_approved-eq csr, is_denied-eq csr)

pub In-passed_csrs :
    (skip : Bool) (csr : Csr) (items : List Csr)
    → In csr (passed_csrs skip items)
    → In csr items × ((skip ≡ true) ⊎ HasRequester csr)
unfolding passed_csrs
In-passed_csrs true csr items h = (h, inl refl)
In-passed_csrs false csr items h =
    let (listed, right) = In-select correct_requester csr items h in
    (listed, inr (correct_requester_sound csr right))

pub passed_csrs-In :
    (skip : Bool) (csr : Csr) (items : List Csr)
    → In csr items
    → (skip ≡ true) ⊎ HasRequester csr
    → In csr (passed_csrs skip items)
unfolding passed_csrs
passed_csrs-In true csr items h r = h
passed_csrs-In false csr items h (inl e) = absurd (cc)
passed_csrs-In false csr items h (inr r) =
    select-In correct_requester csr items h (correct_requester_complete csr r)

-- A listed request is left to approve exactly when it is eligible.
pub In-to_approve :
    (skip : Bool) (csr : Csr) (items : List Csr)
    → In csr (to_approve skip items)
    → In csr items × IsEligible skip csr
unfolding to_approve
In-to_approve skip csr items h =
    let (passed, free) = In-select is_pending csr (passed_csrs skip items) h in
    let (listed, right) = In-passed_csrs skip csr items passed in
    (listed, record { requester = right; undecided = is_pending_undecided csr free })

pub to_approve-In :
    (skip : Bool) (csr : Csr) (items : List Csr)
    → In csr items
    → IsEligible skip csr
    → In csr (to_approve skip items)
unfolding to_approve
to_approve-In skip csr items h e =
    select-In is_pending csr (passed_csrs skip items) (passed_csrs-In skip csr items h e.requester)
      (ground (arith, is_approved-eq csr, is_denied-eq csr, e.undecided.0, e.undecided.1))
