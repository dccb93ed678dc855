-- ===== src/Controller/Kept.antt =====
-- What the statements of `syncHandlerStandardMode` of pkg/vmo/controller.go keep.
use verrazzano_monitoring_op.Prelude.{
  [], not, ◌∙◌, ◌∷◌, List, ℕ, String, ◌≡◌, refl, inl, inr, Bool, true, ◌&&◌, Option, none, some,
  ◌=ₜ◌, Bool-cases,
}
use verrazzano_monitoring_op.Prelude.Io.{Error, Result, pure, attempt}
use verrazzano_monitoring_op.Prelude.Io.Ensures.{
  Ensures, Ensures-pure, Ensures-bind, Ensures-weaken, Ensures-then,
}
use verrazzano_monitoring_op.Monitor.{Monitor}
use verrazzano_monitoring_op.PvcUpdate.{PvcOutcome}
use verrazzano_monitoring_op.Server.{ask, ask, update_vmi}
use verrazzano_monitoring_op.Vmi.{Vmi}
use verrazzano_monitoring_op.Controller.Stages.{Stages, Operation, SameVersion, error_of}
use verrazzano_monitoring_op.Controller.Sync.{
  perform_all, State, Statement, migrate, role_bindings, configmaps, services, claims,
  stateful_sets, deployments, ingresses, update_instance, auto_expand, ism, default_ism,
  index_patterns, observed, observe, perform, deployments_step, update_step, patterns_step,
  dirty_of,
}

-- a statement keeps the version, and an error once observed stays so
abbrev pub Kept : State → State → Type 0
Kept s s' = SameVersion s.vmo s'.vmo × (s.error_observed ≡ true → s'.error_observed ≡ true)

stays : (b : Bool) (e : Option Error) → b ≡ true → observed b e ≡ true
stays b none h = h
stays b (some e) h = refl

pub Ensures-observe : (o : Operation) (s : State) → Ensures (Kept s) (observe o s)
unfolding observe
Ensures-observe o s =
    Ensures-bind (λ out. SameVersion s.vmo out.0) (o.run s.vmo)
      (λ out. pure (record s { vmo = out.0; error_observed = observed s.error_observed out.1 }))
      (o.keeps s.vmo) (λ out h. Ensures-pure _ (h, stays s.error_observed out.1))

unfoldable pub after_migrate : State → Monitor × Option Error → State
after_migrate s out = record s {
  controller = record s.controller { monitor = out.0 };
  error_observed = observed s.error_observed out.1;
}

unfoldable pub after_claims : State → PvcOutcome → State
after_claims s out = record s {
  vmo = out.vmo;
  pvc_to_ad = out.pvc_to_ad;
  error_observed = observed s.error_observed out.error;
}

unfoldable pub after_sets : State → Bool × Option Error → State
after_sets s out = record s {
  existing_cluster = out.0;
  error_observed = observed s.error_observed out.1;
}

unfoldable pub after_deployments : State → Vmi × Result Bool → State
unfolding dirty_of
after_deployments s out = record s {
  vmo = out.0;
  deployments_dirty = dirty_of out.1;
  error_observed = observed s.error_observed (error_of out.1);
}

module _ (stages : Stages) (diff_vmi : Vmi → Vmi → String) (hash : Vmi → Result ℕ) where
  kept_deployments : (s : State) → Ensures (Kept s) (deployments_step stages diff_vmi hash s)
  unfolding deployments_step after_deployments
  kept_deployments s = elim (Bool-cases (not s.error_observed)) [
    | inl e ↦ rw e (
        Ensures-bind (λ out. SameVersion s.vmo out.0)
          (stages.create_deployments s.pvc_to_ad s.existing_cluster s.vmo)
          (λ out. pure (after_deployments s out))
          (stages.deployments_keep s.pvc_to_ad s.existing_cluster s.vmo)
          (λ out h.
            Ensures-pure (after_deployments s out) (h, stays s.error_observed (error_of out.1))))
    | inr e ↦ rw e (Ensures-pure s (refl, λ h. h))
  ]

  kept_update :
      (original : Vmi) (s : State) → Ensures (Kept s) (update_step stages diff_vmi hash original s)
  unfolding update_step
  kept_update original s = elim (Bool-cases (diff_vmi original s.vmo =ₜ "")) [
    | inl e ↦ rw e (Ensures-pure s (refl, λ h. h))
    | inr e ↦ rw e (
        Ensures-then (attempt (ask (update_vmi s.vmo.namespace s.vmo))) _ (λ r.
          let s' = record s { error_observed = observed s.error_observed (error_of r) } in
          Ensures-weaken (observe stages.delete_default_ism_policy s')
            (λ s'' k. (k.0, λ h. k.1 (stays s.error_observed (error_of r) h)))
            (Ensures-observe stages.delete_default_ism_policy s')))
  ]

  kept_patterns : (s : State) → Ensures (Kept s) (patterns_step stages diff_vmi hash s)
  unfolding patterns_step
  kept_patterns s =
      elim (Bool-cases
        (s.vmo.spec.opensearch_dashboards.enabled && s.vmo.spec.opensearch.enabled)) [
          | inl e ↦ rw e (Ensures-observe stages.create_default_index_patterns s)
          | inr e ↦ rw e (Ensures-pure s (refl, λ h. h))
        ]

  kept :
      (original : Vmi) (x : Statement) (s : State)
      → Ensures (Kept s) (perform stages diff_vmi hash original x s)
  unfolding perform after_migrate after_claims after_sets
  kept original migrate s =
      Ensures-then (stages.migrate_old_indices s.controller.monitor s.vmo)
        (λ out. pure (after_migrate s out))
        (λ out. Ensures-pure (after_migrate s out) (refl, stays s.error_observed out.1))
  kept original claims s =
      Ensures-bind (λ out. SameVersion s.vmo out.vmo) (stages.create_persistent_volume_claims s.vmo)
        (λ out. pure (after_claims s out)) (stages.claims_keep s.vmo)
        (λ out h. Ensures-pure (after_claims s out) (h, stays s.error_observed out.error))
  kept original stateful_sets s =
      Ensures-then (stages.create_stateful_sets s.vmo) (λ out. pure (after_sets s out))
        (λ out. Ensures-pure (after_sets s out) (refl, stays s.error_observed out.1))
  kept original deployments s = kept_deployments s
  kept original update_instance s = kept_update original s
  kept original index_patterns s = kept_patterns s
  kept original role_bindings s = Ensures-observe stages.create_role_bindings s
  kept original configmaps s = Ensures-observe stages.create_configmaps s
  kept original services s = Ensures-observe stages.create_services s
  kept original ingresses s = Ensures-observe stages.create_ingresses s
  kept original auto_expand s = Ensures-observe stages.set_auto_expand_indices s
  kept original ism s = Ensures-observe stages.configure_ism s
  kept original default_ism s = Ensures-observe stages.sync_default_ism_policy s

  pub all_kept :
      (original : Vmi) (xs : List Statement) (s : State)
      → Ensures (Kept s) (perform_all stages diff_vmi hash original xs s)
  unfolding perform_all
  all_kept original [] s = Ensures-pure s (refl, λ h. h)
  all_kept original (x ∷ xs) s =
      Ensures-bind (Kept s) (perform stages diff_vmi hash original x s)
        (perform_all stages diff_vmi hash original xs) (kept original x s)
        (λ s' k.
          Ensures-weaken (perform_all stages diff_vmi hash original xs s')
            (λ s'' k'. (k'.0 ∙ k.0, λ h. k'.1 (k.1 h))) (all_kept original xs s'))
