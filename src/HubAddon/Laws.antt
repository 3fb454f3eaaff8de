-- ===== src/HubAddon/Laws.antt =====
-- What `install hub-addon` applies.
use clusteradm.Base.{
  ◌≡◌, refl, sym, ap, subst, ◌∙◌, inl, inr, Bool, String, List, [], ◌∷◌, ◌++◌, All, text_eq,
  if◌then◌else◌, arith,
}
use clusteradm.Effect.{ok, Trace, Server, pure, say, call, ◌>>=◌, ◌>>◌}
use clusteradm.Effect.Calls.{calls_of, calls_of-bind}
use clusteradm.Effect.Runs.{lift_answer}
use clusteradm.Effect.IfOk.{IfOk, IfOk-then_left, IfOk-then_right}
use clusteradm.Errors.{Errors}
use clusteradm.Hub
use clusteradm.HubAddon.{
  Options, BundleVersion, Call, Answer, apply_directly, apply_deployments, write_output,
  app_mgr_addon_name, policy_framework_addon_name, app_mgr_files, app_mgr_deployments, policy_files,
  policy_deployments, check_split, validate, hub_addons, install, install_addon, install_addons,
  run_with_client, run,
}
use clusteradm.HubAddon.Names.{IsBuiltIn, AreNamed, hub_addons-AreNamed}

-- The calls for an add-on, the last one first: its files, and then its deployments.
abbrev pub calls_for : Bool → String → List Call
calls_for dry_run addon =
    if text_eq addon app_mgr_addon_name
    then apply_deployments dry_run app_mgr_deployments ∷ apply_directly dry_run app_mgr_files ∷ []
    else apply_deployments dry_run policy_deployments ∷ apply_directly dry_run policy_files ∷ []

abbrev pub all_calls : Bool → List String → List Call
all_calls dry_run [] = []
all_calls dry_run (addon ∷ addons) = all_calls dry_run addons ++ calls_for dry_run addon

module _ (X : Errors) (server : Server Call Answer X.Error) where
  calls_of-install :
      (dry_run : Bool) (name : String) (files deployments output r : List String) (h : Trace Call)
      → (install X server dry_run name files deployments output h).0 ≡ ok r
      → calls_of (install X server dry_run name files deployments output h).1
        ≡ apply_deployments dry_run deployments ∷ apply_directly dry_run files ∷ []
  unfolding install ◌>>=◌ ◌>>◌ call say pure
  calls_of-install dry_run name files deployments output r h done = ground arith

  -- The switch, at a name.
  abbrev Applies : Bool → List String → List String → Trace Call → String → Type 0
  Applies dry_run output r h addon =
      (install_addon X server dry_run addon output h).0 ≡ ok r
      → calls_of (install_addon X server dry_run addon output h).1 ≡ calls_for dry_run addon

  calls_of-install_addon :
      (dry_run : Bool) (addon : String) (output r : List String) (h : Trace Call)
      → IsBuiltIn addon
      → Applies dry_run output r h addon
  unfolding install_addon
  calls_of-install_addon dry_run addon output r h (inl e) =
      subst (Applies dry_run output r h) (sym e)
        (calls_of-install dry_run app_mgr_addon_name app_mgr_files app_mgr_deployments output r h)
  calls_of-install_addon dry_run addon output r h (inr e) =
      subst (Applies dry_run output r h) (sym e) (
        calls_of-install dry_run policy_framework_addon_name policy_files policy_deployments output
          r h)

  calls_of-install_addons :
      (dry_run : Bool) (addons output r : List String) (h : Trace Call)
      → All IsBuiltIn addons
      → (install_addons X server dry_run addons output h).0 ≡ ok r
      → calls_of (install_addons X server dry_run addons output h).1 ≡ all_calls dry_run addons
  unfolding install_addons
  calls_of-install_addons dry_run [] output r h k done = unfold pure in refl
  calls_of-install_addons dry_run (addon ∷ addons) output r h (built, k) done =
      let (output', first, later, e) =
        calls_of-bind (install_addon X server dry_run addon output)
          (install_addons X server dry_run addons) h r done in
      rw (
        e,
        calls_of-install_addon dry_run addon output output' h built first,
        calls_of-install_addons dry_run addons output' r _ k later,
      )

  validate_split :
      (hub : Server Hub.Call Hub.Answer X.Error) (o : Options)
      → IfOk (check_split X o ≡ ok tt) (validate X hub o)
  unfolding validate
  validate_split hub o = IfOk-then_right _ _ (
      IfOk-then_left {Q = check_split X o ≡ ok tt} _ _
        (record { at = λ h a done. lift_answer (check_split X o) h a done }))

  -- If `validate` of `install hub-addon` accepts the names and `run` succeeds, the run is over built-in
  -- add-ons, just those that are named, each once; it applies for each, in this order, the files and then
  -- the deployments of it, with the dry-run flag that is given; and it then writes the output.
  pub calls_of-run :
      (hub : Server Hub.Call Hub.Answer X.Error) (o : Options) (before : Trace Hub.Call)
      (versions : BundleVersion) (dry_run : Bool) (h : Trace Call)
      → (validate X hub o before).0 ≡ ok versions
      → (run X server dry_run o h).0 ≡ ok tt
      → AreNamed o (hub_addons o)
        × ((output : List String) × (calls_of (run X server dry_run o h).1
              ≡ write_output o.output_file output ∷ all_calls dry_run (hub_addons o)))
  unfolding run run_with_client call
  calls_of-run hub o before versions dry_run h validated done =
      let named = hub_addons-AreNamed X o ((validate_split hub o).at before versions validated) in
      let (output, first, later, e) =
        calls_of-bind (install_addons X server dry_run (hub_addons o) []) _ h tt done in
      (
        named,
        (
          output,
          e
              ∙ ap (λ cs. write_output o.output_file output ∷ cs)
                  (calls_of-install_addons dry_run (hub_addons o) [] output h named.0 first),
        ),
      )
