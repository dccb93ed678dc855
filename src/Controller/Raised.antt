-- ===== src/Controller/Raised.antt =====
-- What the statements of `syncHandlerStandardMode` of pkg/vmo/controller.go do where a stage reports an
-- error in the run of a sync.
use verrazzano_monitoring_op.Prelude.{
  ◌⊎◌, ◌=ₜ◌, ◌&&◌, not, List, ℕ, String, ◌≡◌, refl, sym, ap, ◌∙◌, inl, inr, Bool, true, false,
  Option, none, some, Bool-cases,
}
use verrazzano_monitoring_op.Prelude.Io.{attempt, Error, Result, ok, err, panic, pure, ◌>>=◌}
use verrazzano_monitoring_op.Prelude.Io.Ensures.{bind_ok, ok-inj}
use verrazzano_monitoring_op.Server.{update_vmi, ask, Call, Reply, Client}
use verrazzano_monitoring_op.Vmi.{Vmi}
use verrazzano_monitoring_op.Controller.Stages.{Stages, Operation, error_of}
use verrazzano_monitoring_op.Controller.Sync.{
  update_step, State, Statement, migrate, role_bindings, configmaps, services, claims,
  stateful_sets, deployments, ingresses, update_instance, auto_expand, ism, default_ism,
  index_patterns, observed, observe, perform, deployments_step, patterns_step, migrate_step,
  claims_step, sets_step,
}
use verrazzano_monitoring_op.Controller.Kept.{
  Ensures-observe, after_migrate, after_claims, after_sets, after_deployments,
}

sets : (b : Bool) (e : Option Error) → observed false e ≡ true → observed b e ≡ true
sets b none h = absurd (cc)
sets b (some e) h = refl

pub not-false : (b : Bool) → not b ≡ false → b ≡ true
not-false true h = refl
not-false false h = absurd (cc)

-- a call that returns, with an error for the sync to look at
abbrev pub Reported : {A : Type 0} → (A → Option Error) → Result A → Type 0
Reported error (ok a) = observed false (error a) ≡ true
Reported error (err e) = ⊥
Reported error panic = ⊥

Reported-ok :
    {A : Type 0} (error : A → Option Error) (r : Result A) (a : A)
    → r ≡ ok a
    → Reported error r
    → observed false (error a) ≡ true
Reported-ok error (ok b) a e h = rw (← ok-inj b a e) h
Reported-ok error (err x) a e h = absurd h
Reported-ok error panic a e h = absurd h

noted :
    {A : Type 0} (m : Client A) (error : A → Option Error) (s : State) (after : A → State)
    (env : List Call → Call → Reply) (tr : List Call) (s' : State)
    → ((a : A) → (after a).error_observed ≡ observed s.error_observed (error a))
    → Reported error (m env tr).0
    → ((m >>= λ a. pure (after a)) env tr).0 ≡ ok s'
    → s'.error_observed ≡ true
noted m error s after env tr s' same h e =
    let (a, returned, last) = bind_ok m (λ a. pure (after a)) env tr s' e in
    ap (λ (t : State). t.error_observed) (sym (ok-inj (after a) s' last))
    ∙ same a
    ∙ sets s.error_observed (error a) (Reported-ok error (m env tr).0 a returned h)

-- an operation that reports an error at this point of the run
abbrev pub Raises : Operation → State → (List Call → Call → Reply) → List Call → Type 0
Raises o s env tr = Reported (λ out. out.1) (o.run s.vmo env tr).0

noted_observe :
    (o : Operation) (s : State) (env : List Call → Call → Reply) (tr : List Call) (s' : State)
    → Raises o s env tr
    → (observe o s env tr).0 ≡ ok s'
    → s'.error_observed ≡ true
unfolding observe
noted_observe o s env tr s' h e =
    noted (o.run s.vmo) (λ out. out.1) s
      (λ out. record s { vmo = out.0; error_observed = observed s.error_observed out.1 }) env tr s'
      (λ out. refl) h e

module _ (stages : Stages) (diff_vmi : Vmi → Vmi → String) (hash : Vmi → Result ℕ) where
  -- the statement, carried out at this point of the run, is given an error
  abbrev pub Fails : Vmi → Statement → State → (List Call → Call → Reply) → List Call → Type 0
  Fails original migrate s env tr =
      Reported (λ out. out.1) (stages.migrate_old_indices s.controller.monitor s.vmo env tr).0
  Fails original claims s env tr =
      Reported (λ out. out.error) (stages.create_persistent_volume_claims s.vmo env tr).0
  Fails original stateful_sets s env tr =
      Reported (λ out. out.1) (stages.create_stateful_sets s.vmo env tr).0
  Fails original deployments s env tr =
      Reported (λ out. error_of (out.1))
        (stages.create_deployments s.pvc_to_ad s.existing_cluster s.vmo env tr).0
  Fails original role_bindings s env tr = Raises stages.create_role_bindings s env tr
  Fails original configmaps s env tr = Raises stages.create_configmaps s env tr
  Fails original services s env tr = Raises stages.create_services s env tr
  Fails original ingresses s env tr = Raises stages.create_ingresses s env tr
  Fails original auto_expand s env tr = Raises stages.set_auto_expand_indices s env tr
  Fails original ism s env tr = Raises stages.configure_ism s env tr
  Fails original default_ism s env tr = Raises stages.sync_default_ism_policy s env tr
  Fails original update_instance s env tr =
      ((diff_vmi original s.vmo =ₜ "") ≡ false)
      × (Reported error_of (attempt (ask (update_vmi s.vmo.namespace s.vmo)) env tr).0
          ⊎ Raises stages.delete_default_ism_policy s env
              (attempt (ask (update_vmi s.vmo.namespace s.vmo)) env tr).1)
  Fails original index_patterns s env tr =
      (s.vmo.spec.opensearch_dashboards.enabled ≡ true)
      × (s.vmo.spec.opensearch.enabled ≡ true)
      × Raises stages.create_default_index_patterns s env tr

  both : (a b : Bool) → a ≡ true → b ≡ true → (a && b) ≡ true
  both a b h k = rw (h, k) refl

  noted_deployments :
      (s : State) (env : List Call → Call → Reply) (tr : List Call) (s' : State)
      → Fails s.vmo deployments s env tr
      → (deployments_step stages diff_vmi hash s env tr).0 ≡ ok s'
      → s'.error_observed ≡ true
  unfolding deployments_step after_deployments
  noted_deployments s env tr s' h e = elim (Bool-cases (not s.error_observed)) [
    | inl q ↦
        noted (stages.create_deployments s.pvc_to_ad s.existing_cluster s.vmo)
          (λ out. error_of (out.1)) s (after_deployments s) env tr s' (λ out. refl) h (rw q at e)
    | inr q ↦
        ap (λ (t : State). t.error_observed) (sym (ok-inj s s' (rw q at e)))
        ∙ not-false s.error_observed q
  ]

  noted_update :
      (original : Vmi) (s : State) (env : List Call → Call → Reply) (tr : List Call) (s' : State)
      → Fails original update_instance s env tr
      → (update_step stages diff_vmi hash original s env tr).0 ≡ ok s'
      → s'.error_observed ≡ true
  unfolding update_step
  noted_update original s env tr s' (d, h) e =
      let m = attempt (ask (update_vmi s.vmo.namespace s.vmo)) in
      let after : Result Reply → State =
        λ r. record s { error_observed = observed s.error_observed (error_of r) } in
      let (r, returned, last) =
        bind_ok m (λ r. observe stages.delete_default_ism_policy (after r)) env tr s' (rw d at e) in
      elim h [
        | inl w ↦
            ((Ensures-observe stages.delete_default_ism_policy (after r)).holds env (m env tr).1 s'
                last).1
              (sets s.error_observed (error_of r) (Reported-ok error_of (m env tr).0 r returned w))
        | inr p ↦
            noted_observe stages.delete_default_ism_policy (after r) env (m env tr).1 s' p last
      ]

  pub noted_perform :
      (original : Vmi) (x : Statement) (s : State) (env : List Call → Call → Reply) (tr : List Call)
      (s' : State)
      → Fails original x s env tr
      → (perform stages diff_vmi hash original x s env tr).0 ≡ ok s'
      → s'.error_observed ≡ true
  unfolding perform migrate_step claims_step sets_step patterns_step after_migrate after_claims
      after_sets
  noted_perform original migrate s env tr s' h e =
      noted (stages.migrate_old_indices s.controller.monitor s.vmo) (λ out. out.1) s
        (after_migrate s) env tr s' (λ out. refl) h e
  noted_perform original claims s env tr s' h e =
      noted (stages.create_persistent_volume_claims s.vmo) (λ out. out.error) s (after_claims s) env
        tr s' (λ out. refl) h e
  noted_perform original stateful_sets s env tr s' h e =
      noted (stages.create_stateful_sets s.vmo) (λ out. out.1) s (after_sets s) env tr s'
        (λ out. refl) h e
  noted_perform original deployments s env tr s' h e = noted_deployments s env tr s' h e
  noted_perform original update_instance s env tr s' h e = noted_update original s env tr s' h e
  noted_perform original index_patterns s env tr s' (d, o, h) e =
      noted_observe stages.create_default_index_patterns s env tr s' h
        (rw (both s.vmo.spec.opensearch_dashboards.enabled s.vmo.spec.opensearch.enabled d o) at e)
  noted_perform original role_bindings s env tr s' h e =
      noted_observe stages.create_role_bindings s env tr s' h e
  noted_perform original configmaps s env tr s' h e =
      noted_observe stages.create_configmaps s env tr s' h e
  noted_perform original services s env tr s' h e =
      noted_observe stages.create_services s env tr s' h e
  noted_perform original ingresses s env tr s' h e =
      noted_observe stages.create_ingresses s env tr s' h e
  noted_perform original auto_expand s env tr s' h e =
      noted_observe stages.set_auto_expand_indices s env tr s' h e
  noted_perform original ism s env tr s' h e = noted_observe stages.configure_ism s env tr s' h e
  noted_perform original default_ism s env tr s' h e =
      noted_observe stages.sync_default_ism_policy s env tr s' h e
