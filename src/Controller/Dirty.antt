-- ===== src/Controller/Dirty.antt =====
-- What the statements of `syncHandlerStandardMode` of pkg/vmo/controller.go do with the note that the
-- deployments changed.
use verrazzano_monitoring_op.Prelude.{
  ℕ, String, ◌≡◌, refl, inl, inr, Bool, true, ◌&&◌, ◌||◌, Option, none, some, List, [], ◌∷◌, arith,
  ◌=ₜ◌, Bool-cases, All,
}
use verrazzano_monitoring_op.Prelude.Io.{Error, Result, pure, attempt}
use verrazzano_monitoring_op.Prelude.Io.Ensures.{
  Ensures, Ensures-pure, Ensures-bind, Ensures-then, Ensures-weaken,
}
use verrazzano_monitoring_op.Server.{ask, update_vmi}
use verrazzano_monitoring_op.Vmi.{Vmi}
use verrazzano_monitoring_op.Controller.Stages.{Stages, Operation, error_of}
use verrazzano_monitoring_op.Controller.Sync.{
  State, Statement, migrate, role_bindings, configmaps, services, claims, stateful_sets,
  deployments, ingresses, update_instance, auto_expand, ism, default_ism, index_patterns, observed,
  observe, perform, perform_all, update_step, patterns_step,
}
use verrazzano_monitoring_op.Controller.Kept.{after_migrate, after_claims, after_sets}

-- the version is not to be set
abbrev pub Blocked : State → Type 0
Blocked s = (s.error_observed || s.deployments_dirty) ≡ true

pub by_error : (s : State) → s.error_observed ≡ true → Blocked s
by_error s h = rw h refl

pub by_dirt : (s : State) → s.deployments_dirty ≡ true → Blocked s
by_dirt s h = ground (arith)

-- a statement lifts no block
abbrev Same : State → State → Type 0
Same s s' = Blocked s → Blocked s'

still : (b d : Bool) (e : Option Error) → (b || d) ≡ true → (observed b e || d) ≡ true
still b d none h = h
still b d (some e) h = refl

observed_still : (o : Operation) (s : State) → Ensures (Same s) (observe o s)
unfolding observe
observed_still o s =
    Ensures-then (o.run s.vmo)
      (λ out. pure (record s { vmo = out.0; error_observed = observed s.error_observed out.1 }))
      (λ out. Ensures-pure _ (still s.error_observed s.deployments_dirty out.1))

-- all statements but the one that may clear the note
abbrev pub IsOther : Statement → Type 0
IsOther deployments = ⊥
IsOther migrate = Unit
IsOther role_bindings = Unit
IsOther configmaps = Unit
IsOther services = Unit
IsOther claims = Unit
IsOther stateful_sets = Unit
IsOther ingresses = Unit
IsOther update_instance = Unit
IsOther auto_expand = Unit
IsOther ism = Unit
IsOther default_ism = Unit
IsOther index_patterns = Unit

module _ (stages : Stages) (diff_vmi : Vmi → Vmi → String) (hash : Vmi → Result ℕ) where
  updated_still :
      (original : Vmi) (s : State) → Ensures (Same s) (update_step stages diff_vmi hash original s)
  unfolding update_step
  updated_still original s = elim (Bool-cases (diff_vmi original s.vmo =ₜ "")) [
    | inl e ↦ rw e (Ensures-pure s (λ h. h))
    | inr e ↦ rw e (
        Ensures-then (attempt (ask (update_vmi s.vmo.namespace s.vmo))) _ (λ r.
          let s' = record s { error_observed = observed s.error_observed (error_of r) } in
          Ensures-weaken (observe stages.delete_default_ism_policy s')
            (λ s'' k h. k (still s.error_observed s.deployments_dirty (error_of r) h))
            (observed_still stages.delete_default_ism_policy s')))
  ]

  patterns_still : (s : State) → Ensures (Same s) (patterns_step stages diff_vmi hash s)
  unfolding patterns_step
  patterns_still s =
      elim (Bool-cases
        (s.vmo.spec.opensearch_dashboards.enabled && s.vmo.spec.opensearch.enabled)) [
          | inl e ↦ rw e (observed_still stages.create_default_index_patterns s)
          | inr e ↦ rw e (Ensures-pure s (λ h. h))
        ]

  performed_still :
      (original : Vmi) (x : Statement) (s : State)
      → IsOther x
      → Ensures (Same s) (perform stages diff_vmi hash original x s)
  unfolding perform after_migrate after_claims after_sets
  performed_still original migrate s u =
      Ensures-then (stages.migrate_old_indices s.controller.monitor s.vmo)
        (λ out. pure (after_migrate s out))
        (λ out.
          Ensures-pure (after_migrate s out) (still s.error_observed s.deployments_dirty out.1))
  performed_still original claims s u =
      Ensures-then (stages.create_persistent_volume_claims s.vmo) (λ out. pure (after_claims s out))
        (λ out.
          Ensures-pure (after_claims s out) (still s.error_observed s.deployments_dirty out.error))
  performed_still original stateful_sets s u =
      Ensures-then (stages.create_stateful_sets s.vmo) (λ out. pure (after_sets s out))
        (λ out. Ensures-pure (after_sets s out) (still s.error_observed s.deployments_dirty out.1))
  performed_still original deployments s u = absurd u
  performed_still original update_instance s u = updated_still original s
  performed_still original index_patterns s u = patterns_still s
  performed_still original role_bindings s u = observed_still stages.create_role_bindings s
  performed_still original configmaps s u = observed_still stages.create_configmaps s
  performed_still original services s u = observed_still stages.create_services s
  performed_still original ingresses s u = observed_still stages.create_ingresses s
  performed_still original auto_expand s u = observed_still stages.set_auto_expand_indices s
  performed_still original ism s u = observed_still stages.configure_ism s
  performed_still original default_ism s u = observed_still stages.sync_default_ism_policy s

  pub all_still :
      (original : Vmi) (xs : List Statement) (s : State)
      → All IsOther xs
      → Blocked s
      → Ensures Blocked (perform_all stages diff_vmi hash original xs s)
  unfolding perform_all
  all_still original [] s u h = Ensures-pure s h
  all_still original (x ∷ xs) s (u, us) h =
      Ensures-bind Blocked (perform stages diff_vmi hash original x s)
        (perform_all stages diff_vmi hash original xs)
        (Ensures-weaken (perform stages diff_vmi hash original x s) (λ s' k. k h)
          (performed_still original x s u))
        (λ s' k. all_still original xs s' us k)
