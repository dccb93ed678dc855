-- ===== src/Deployments/Removals.antt =====
-- What pkg/vmo/deployment.go takes down at a time, and when.
use verrazzano_monitoring_op.Prelude.{
  ℕ, ◌≤◌, String, ◌≡◌, refl, ◌≢◌, inl, inr, Bool, true, false, List, [], ◌∷◌, arith, ◌=ₜ◌,
  if◌then◌else◌, Bool-cases, any,
}
use verrazzano_monitoring_op.Prelude.Io.{continue, settle, pure, panic, err, ok, Result, ◌>>=◌}
use verrazzano_monitoring_op.Prelude.Io.Cost.{
  AtMost, AtMost-pure, AtMost-lift, AtMost-if, AtMost-attempt, AtMost-bind, AtMost-bind_free, total,
}
use verrazzano_monitoring_op.Kube.{Deployment}
use verrazzano_monitoring_op.Health.{is_green}
use verrazzano_monitoring_op.Health.Costs.{AtMost-is_green}
use verrazzano_monitoring_op.Server.{
  Config, Client, Call, update_deployment, delete_deployment, Reply,
}
use verrazzano_monitoring_op.Server.Costs.{AtMost-ask}
use verrazzano_monitoring_op.StatefulSets.Green.{SaysGreen, health_call, is_green_ok}
use verrazzano_monitoring_op.Vmi.{Vmi}
use verrazzano_monitoring_op.Deployments.{
  passed, is_update_allowed, is_last, delete_one, needs_green, delete_unexpected, update_next,
  rolling_update,
}

abbrev pub updates : Call → ℕ
updates (update_deployment ns d) = 1
updates c = 0

abbrev pub removals : Call → ℕ
removals (delete_deployment ns name) = 1
removals c = 0

AtMost-passed : {weight : Call → ℕ} (r : Result (Unit {0})) → AtMost weight 0 (passed r)
unfolding passed
AtMost-passed (ok u) = AtMost-pure 0 true
AtMost-passed (err e) = AtMost-pure 0 false
AtMost-passed panic = AtMost-lift 0 panic

AtMost-allowed :
    (config : Config) (vmo : Vmi) (d : Deployment)
    → AtMost updates 0 (is_update_allowed config vmo d)
unfolding is_update_allowed
AtMost-allowed config vmo d =
    AtMost-if 0 _ _ _
      (AtMost-if 0 _ _ _ (AtMost-pure 0 true) (
        AtMost-bind_free 0 _ _
          (AtMost-attempt 0 _ (AtMost-is_green (λ m u b. omega arith) config vmo)) AtMost-passed))
      (AtMost-pure 0 true)

module _ (diff : Deployment → Deployment → String) where
  AtMost-next :
      (vmo : Vmi) (existing current : Deployment) (last : Bool) (rest : Client Bool)
      → AtMost updates 1 rest
      → AtMost updates 1 (update_next diff vmo existing current last rest)
  unfolding update_next
  AtMost-next vmo existing current last rest h =
      AtMost-if 1 _ _ _ (AtMost-bind 1 0 _ _ (AtMost-ask 1 _ (omega arith)) (λ r. AtMost-pure 0 _))
        (AtMost-if 1 _ _ _ (AtMost-pure 1 true) h)

  -- Whatever the servers answer and whatever `diff` finds, a rolling update updates at most one
  -- deployment.
  pub rolling_update_once :
      (config : Config) (vmo : Vmi) (list : List Deployment)
      → AtMost updates 1 (rolling_update diff config vmo list)
  unfolding rolling_update
  rolling_update_once config vmo [] = AtMost-pure 1 false
  rolling_update_once config vmo (current ∷ list) =
      AtMost-bind_free 1 _ _ (AtMost-ask 0 _ (omega arith)) (λ found.
        AtMost-bind_free 1 _ _ (AtMost-allowed config vmo current) (λ allowed.
          AtMost-if 1 _ _ _ (rolling_update_once config vmo list) (
            AtMost-next vmo found.deployment current (is_last list) _
              (rolling_update_once config vmo list))))

-- nothing is deleted behind a check that has not passed
unpassed :
    (vmo : Vmi) (d : Deployment) (env : List Call → Call → Reply) (r : Result (Unit {0}))
    (tr : List Call)
    → r ≢ ok tt
    → total removals
        (continue
          (λ q. passed q >>= λ green. if green then delete_one vmo d else pure tt)
          env
          (settle r)
          tr).1
      ≤ total removals tr
unfolding passed
unpassed vmo d env (ok u) tr h = absurd (h refl)
unpassed vmo d env (err e) tr h = omega arith
unpassed vmo d env panic tr h = omega arith

-- Where OpenSearch is enabled in the instance, a deployment of data nodes that runs, or while others
-- are expected, is not deleted unless the
-- answer to the request for the cluster's health is a success, can be decoded and says green.
pub delete_waits_for_green :
    (config : Config) (vmo : Vmi) (names : List String) (data_count : ℕ) (d : Deployment)
    (env : List Call → Call → Reply) (tr : List Call)
    → needs_green vmo data_count d ≡ true
    → vmo.spec.opensearch.enabled ≡ true
    → (SaysGreen (env tr (health_call config vmo)) → ⊥)
    → total removals (delete_unexpected config vmo names data_count d env tr).1 ≤ total removals tr
unfolding delete_unexpected
delete_waits_for_green config vmo names data_count d env tr n on not_green =
    let quiet =
      (AtMost-is_green {weight = removals} (λ m u b. omega arith) config vmo).bound env tr in
    let not_ok = λ (h : (is_green config vmo env tr).0 ≡ ok tt).
      not_green (is_green_ok config vmo env tr on h) in
    elim (Bool-cases (any names (λ name. name =ₜ d.name))) [
      | inl e ↦ rw e (omega arith)
      | inr e ↦
          rw (e, n)
            (omega (
              arith,
              quiet,
              unpassed vmo d env (is_green config vmo env tr).0 (is_green config vmo env tr).1
                  not_ok,
            ))
    ]
