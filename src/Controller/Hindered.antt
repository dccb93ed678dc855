-- ===== src/Controller/Hindered.antt =====
-- What holds the version back in the run of a sync: `syncHandlerStandardMode` of pkg/vmo/controller.go.

use verrazzano_monitoring_op.Prelude.{
  All, List, [], ◌∷◌, sym, ap, not, ◌⊎◌, inr, String, ℕ, ◌≡◌, refl, ◌∙◌, inl, true, Bool-cases,
}
use verrazzano_monitoring_op.Prelude.Io.{Result, ok}
use verrazzano_monitoring_op.Prelude.Io.Ensures.{bind_ok, ok-inj}
use verrazzano_monitoring_op.Server.{Call, Reply}
use verrazzano_monitoring_op.Vmi.{Vmi}
use verrazzano_monitoring_op.Controller.Stages.{Stages}
use verrazzano_monitoring_op.Controller.Sync.{
  perform, perform_all, State, Statement, statements, migrate, role_bindings, configmaps, services,
  claims, stateful_sets, deployments, ingresses, update_instance, auto_expand, ism, default_ism,
  index_patterns, deployments_step, dirty_of,
}
use verrazzano_monitoring_op.Controller.Kept.{all_kept, after_deployments}
use verrazzano_monitoring_op.Controller.Dirty.{Blocked, IsOther, by_error, by_dirt, all_still}
use verrazzano_monitoring_op.Controller.Raised.{Fails, not-false, noted_perform}

module _ (stages : Stages) (diff_vmi : Vmi → Vmi → String) (hash : Vmi → Result ℕ) where
  -- the deployments, carried out at this point of the run, have changed
  abbrev pub Changes : Statement → State → (List Call → Call → Reply) → List Call → Type 0
  Changes deployments s env tr =
      (vmo : Vmi) × ((stages.create_deployments s.pvc_to_ad s.existing_cluster s.vmo env tr).0
        ≡ ok (vmo, ok true))
  Changes migrate s env tr = ⊥
  Changes role_bindings s env tr = ⊥
  Changes configmaps s env tr = ⊥
  Changes services s env tr = ⊥
  Changes claims s env tr = ⊥
  Changes stateful_sets s env tr = ⊥
  Changes ingresses s env tr = ⊥
  Changes update_instance s env tr = ⊥
  Changes auto_expand s env tr = ⊥
  Changes ism s env tr = ⊥
  Changes default_ism s env tr = ⊥
  Changes index_patterns s env tr = ⊥

  -- In the run of the statements from here on, one of them is given an error, or the deployments change.
  abbrev pub Hindered :
      Vmi → List Statement → State → (List Call → Call → Reply) → List Call → Type 0
  Hindered original [] s env tr = ⊥
  Hindered original (x ∷ xs) s env tr =
      (Fails stages diff_vmi hash original x s env tr ⊎ Changes x s env tr)
      ⊎ ((s' : State) × (mid : List Call) × (perform stages diff_vmi hash original x s env tr
            ≡ (ok s', mid))
          × Hindered original xs s' env mid)

  -- the note that the deployments changed is not cleared by a statement behind them
  abbrev pub Ordered : List Statement → Type 0
  Ordered [] = Unit
  Ordered (x ∷ xs) = ((x ≡ deployments) → All IsOther xs) × Ordered xs

  changed_deployments :
      (original : Vmi) (x : Statement) (s : State) (env : List Call → Call → Reply) (tr : List Call)
      (s' : State)
      → Changes x s env tr
      → (perform stages diff_vmi hash original x s env tr).0 ≡ ok s'
      → (x ≡ deployments) × Blocked s'
  unfolding perform deployments_step after_deployments dirty_of
  changed_deployments original deployments s env tr s' (vmo, h) e =
      elim (Bool-cases (not s.error_observed)) [
        | inl q ↦ (
          refl,
          by_dirt s' (
              ap (λ (t : State). t.deployments_dirty)
                (sym (ok-inj (after_deployments s (vmo, ok true)) s' (rw (q, h) at e)))),
        )
        | inr q ↦ (
          refl,
          by_error s' (
              ap (λ (t : State). t.error_observed) (sym (ok-inj s s' (rw q at e)))
              ∙ not-false s.error_observed q),
        )
      ]
  changed_deployments original migrate s env tr s' h e = absurd h
  changed_deployments original role_bindings s env tr s' h e = absurd h
  changed_deployments original configmaps s env tr s' h e = absurd h
  changed_deployments original services s env tr s' h e = absurd h
  changed_deployments original claims s env tr s' h e = absurd h
  changed_deployments original stateful_sets s env tr s' h e = absurd h
  changed_deployments original ingresses s env tr s' h e = absurd h
  changed_deployments original update_instance s env tr s' h e = absurd h
  changed_deployments original auto_expand s env tr s' h e = absurd h
  changed_deployments original ism s env tr s' h e = absurd h
  changed_deployments original default_ism s env tr s' h e = absurd h
  changed_deployments original index_patterns s env tr s' h e = absurd h

  pub blocked :
      (original : Vmi) (xs : List Statement) (s : State) (env : List Call → Call → Reply)
      (tr : List Call) (last : State)
      → Ordered xs
      → Hindered original xs s env tr
      → (perform_all stages diff_vmi hash original xs s env tr).0 ≡ ok last
      → Blocked last
  unfolding perform_all
  blocked original [] s env tr last o h e = absurd h
  blocked original (x ∷ xs) s env tr last (o, os) h e =
      let m = perform stages diff_vmi hash original x s in
      let (s', first, rest) =
        bind_ok m (perform_all stages diff_vmi hash original xs) env tr last e in
      elim h [
        | inl (inl f) ↦ by_error last (
            ((all_kept stages diff_vmi hash original xs s').holds env (m env tr).1 last rest).1
              (noted_perform stages diff_vmi hash original x s env tr s' f first))
        | inl (inr c) ↦
            let (same, b) = changed_deployments original x s env tr s' c first in
            (all_still stages diff_vmi hash original xs s' (o same) b).holds env (m env tr).1 last
              rest
        | inr (t, mid, ran, later) ↦ blocked original xs t env mid last os later (rw ran at e)
      ]

  pub statements-Ordered : Ordered statements
  statements-Ordered = (
    (λ e. absurd (cc e)),
    (
      (λ e. absurd (cc e)),
      (
        (λ e. absurd (cc e)),
        (
          (λ e. absurd (cc e)),
          (
            (λ e. absurd (cc e)),
            (
              (λ e. absurd (cc e)),
              (
                (λ e. (tt, (tt, (tt, (tt, (tt, (tt, tt))))))),
                (
                  (λ e. absurd (cc e)),
                  (
                    (λ e. absurd (cc e)),
                    (
                      (λ e. absurd (cc e)),
                      ((λ e. absurd (cc e)), ((λ e. absurd (cc e)), ((λ e. absurd (cc e)), tt))),
                    ),
                  ),
                ),
              ),
            ),
          ),
        ),
      ),
    ),
  )
