-- ===== src/Token/Get/Applied.antt =====
-- The lists of files that a run of `get token` applies, in their order.
use clusteradm.Base.{
  ◌≡◌, refl, sym, ap, ◌∙◌, ◌⊎◌, inl, inr, Bool, true, Bool-cases, String, List, [], ◌∷◌, ◌++◌, All,
}
use mathlib.Core.List.{append_assoc}
use clusteradm.Effect.{
  Result, ok, err, print, request, Trace, Prog, Server, pure, fail, call, ◌>>=◌,
}
use clusteradm.Effect.Runs.{ok_bind, bind_ok, Result-cases}
use clusteradm.Errors.{Errors}
use clusteradm.Token.{
  Call, Answer, server_resources, get_crd, list_secrets, create_token, apply_directly, rest_config,
  write_json, write_output, delete_cluster_role_binding, delete_cluster_role, delete_secret,
  delete_service_account,
}
use clusteradm.Token.Get.{Options, token_files, apply_token, apply_missing, token_or_apply}
use clusteradm.Token.Get.Emitted.{Applies}

-- The list of files that a call applies, if it is a call of the applier.
abbrev files_of : Call → List (List String)
files_of (apply_directly dry_run files) = files ∷ []
files_of _ = []

-- The lists of files that a trace applies, the last one first.
abbrev pub applied : Trace Call → List (List String)
applied [] = []
applied (print line ∷ tr) = applied tr
applied (request c ∷ tr) = files_of c ++ applied tr

applied-append : (new h : Trace Call) → applied (new ++ h) ≡ applied new ++ applied h
applied-append [] h = refl
applied-append (print line ∷ new) h = applied-append new h
applied-append (request c ∷ new) h =
    ap (λ fs. files_of c ++ fs) (applied-append new h)
    ∙ sym (append_assoc (files_of c) (applied new) (applied h))

-- What a composed command that succeeds applies is what its parts apply.
pub applied-bind :
    {E A B : Type 0} (m : Prog Call E A) (f : A → Prog Call E B) (h : Trace Call) (b : B)
    → ((m >>= f) h).0 ≡ ok b
    → (a : A) × ((m h).0 ≡ ok a)
      × ((f a ((m h).1 ++ h)).0 ≡ ok b)
      × (applied ((m >>= f) h).1 ≡ applied (f a ((m h).1 ++ h)).1 ++ applied (m h).1)
applied-bind m f h b done =
    let (a, first, later) = ok_bind m f h b done in
    let run = bind_ok m f h (λ i. (first i, (m h).1)) refl in
    (a, first, later, ap (λ r. applied r.1) run ∙ applied-append (f a ((m h).1 ++ h)).1 (m h).1)

files_of-nil : (dry_run : Bool) (c : Call) → Applies dry_run (λ _. ⊥) (request c) → files_of c ≡ []
files_of-nil dry_run (apply_directly dry files) (_, none) = absurd none
files_of-nil dry_run server_resources g = refl
files_of-nil dry_run (get_crd name) g = refl
files_of-nil dry_run (list_secrets namespace selector) g = refl
files_of-nil dry_run (create_token namespace name) g = refl
files_of-nil dry_run rest_config g = refl
files_of-nil dry_run (write_json token host) g = refl
files_of-nil dry_run (write_output file output) g = refl
files_of-nil dry_run (delete_cluster_role_binding name) g = refl
files_of-nil dry_run (delete_cluster_role name) g = refl
files_of-nil dry_run (delete_secret namespace name) g = refl
files_of-nil dry_run (delete_service_account namespace name) g = refl

-- A trace with no call of the applier applies nothing.
pub applied-nil :
    (dry_run : Bool) (tr : Trace Call) → All (Applies dry_run (λ _. ⊥)) tr → applied tr ≡ []
applied-nil dry_run [] g = refl
applied-nil dry_run (print line ∷ tr) (_, g) = applied-nil dry_run tr g
applied-nil dry_run (request c ∷ tr) (g, gs) =
    rw (files_of-nil dry_run c g) (applied-nil dry_run tr gs)

pub applied-call :
    {E : Type 0} (server : Server Call Answer E) (c : Call) (h : Trace Call)
    → applied (call server c h).1 ≡ files_of c ++ []
unfolding call
applied-call server c h = refl

module _ (X : Errors) (arg : String) (server : Server Call Answer X.Error) where
  -- The switch applies the files of the token after a NotFound, and nothing after a token.
  pub token_or_apply-applied :
      (o : Options) (r : Result X.Error String) (h : Trace Call) (a : String × List String)
      → (token_or_apply X arg server o r h).0 ≡ ok a
      → (applied (token_or_apply X arg server o r h).1 ≡ [])
        ⊎ ((e : X.Error) × (r ≡ err e)
            × (X.is_not_found e ≡ true)
            × (applied (token_or_apply X arg server o r h).1
                ≡ token_files o.use_bootstrap_token ∷ []))
  unfolding token_or_apply apply_missing apply_token ◌>>=◌ pure fail call
  token_or_apply-applied o (ok token) h a done = inl refl
  token_or_apply-applied o (err e) h a done = elim (Bool-cases (X.is_not_found e)) [
    | inl gone ↦
        elim (Result-cases
          (server h (apply_directly o.dry_run (token_files o.use_bootstrap_token)))) [
            | inl (out, answer) ↦ inr (e, refl, gone, rw (gone, answer) refl)
            | inr (x, answer) ↦ inr (e, refl, gone, rw (gone, answer) refl)
          ]
    | inr other ↦ absurd (cc (rw other at done))
  ]
