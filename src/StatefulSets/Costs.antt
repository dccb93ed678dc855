-- ===== src/StatefulSets/Costs.antt =====
-- How often the parts of `CreateStatefulSets` (pkg/vmo/statefulset.go) make calls of some kind.
use verrazzano_monitoring_op.Prelude.{ℕ, ◌+◌, ◌≤◌, String, List, [], ◌∷◌, arith}
use verrazzano_monitoring_op.Prelude.Io.{Result, ok, err, panic}
use verrazzano_monitoring_op.Prelude.Io.Cost.{
  AtMost, AtMost-pure, AtMost-lift, AtMost-attempt, AtMost-bind, AtMost-bind_free,
}
use verrazzano_monitoring_op.Server.{
  Config, Call, list_stateful_sets, create_stateful_set, update_stateful_set, delete_stateful_set,
  delete_pod, get_pvc, update_pvc, http,
}
use verrazzano_monitoring_op.Server.Costs.{AtMost-ask}
use verrazzano_monitoring_op.Vmi.{Vmi}
use verrazzano_monitoring_op.Kube.{StatefulSet, Pvc}
use verrazzano_monitoring_op.Plan.{StatefulSetPlan}
use verrazzano_monitoring_op.StatefulSets.{
  own_pvcs, update_owner_for_pvcs, update_owners, update_all, delete_first, create_all, apply_plan,
  outcome_of, carry_out,
}

-- a deletion of a stateful set
abbrev pub deletions : Call → ℕ
deletions (delete_stateful_set ns name) = 1
deletions c = 0

-- a call that changes or removes a stateful set or a pod that is there
abbrev pub changes : Call → ℕ
changes (update_stateful_set ns sts) = 1
changes (delete_stateful_set ns name) = 1
changes (delete_pod ns name) = 1
changes c = 0

-- what neither counts
pub record Harmless (weight : Call → ℕ) : Type 0 where
  pub listing : (ns : String) (l : List (String × String)) → weight (list_stateful_sets ns l) ≤ 0
  pub creating : (ns : String) (sts : StatefulSet) → weight (create_stateful_set ns sts) ≤ 0
  pub finding : (ns name : String) → weight (get_pvc ns name) ≤ 0
  pub owning : (ns : String) (p : Pvc) → weight (update_pvc ns p) ≤ 0
  pub asking : (method url body : String) → weight (http method url body) ≤ 0

module _ {weight : Call → ℕ} (harmless : Harmless weight) where
  AtMost-create_all : (vmo : Vmi) (list : List StatefulSet) → AtMost weight 0 (create_all vmo list)
  unfolding create_all
  AtMost-create_all vmo [] = AtMost-pure 0 tt
  AtMost-create_all vmo (sts ∷ list) =
      AtMost-bind_free 0 _ _ (AtMost-ask 0 _ (harmless.creating _ sts))
        (λ r. AtMost-create_all vmo list)

  AtMost-own_pvcs : (vmo : Vmi) (names : List String) → AtMost weight 0 (own_pvcs vmo names)
  unfolding own_pvcs
  AtMost-own_pvcs vmo [] = AtMost-pure 0 tt
  AtMost-own_pvcs vmo (name ∷ names) =
      AtMost-bind_free 0 _ _ (AtMost-ask 0 _ (harmless.finding _ name)) (λ found.
        AtMost-bind_free 0 _ _ (AtMost-ask 0 _ (harmless.owning _ _))
          (λ r. AtMost-own_pvcs vmo names))

  AtMost-update_owners :
      (vmo : Vmi) (list : List StatefulSet) → AtMost weight 0 (update_owners vmo list)
  unfolding update_owners update_owner_for_pvcs
  AtMost-update_owners vmo [] = AtMost-pure 0 tt
  AtMost-update_owners vmo (sts ∷ list) =
      AtMost-bind_free 0 _ _ (AtMost-own_pvcs vmo _) (λ u. AtMost-update_owners vmo list)

  -- a plan is as heavy as its updates and its first deletion
  pub AtMost-apply_plan :
      (n k : ℕ) (config : Config) (vmo : Vmi) (expected_list : List StatefulSet)
      (plan : StatefulSetPlan)
      → AtMost weight n (update_all config vmo plan.update plan)
      → AtMost weight k (delete_first config expected_list plan.delete vmo)
      → AtMost weight (n + k) (apply_plan config vmo expected_list plan)
  unfolding apply_plan
  AtMost-apply_plan n k config vmo expected_list plan hu hd =
      AtMost-bind_free (n + k) _ _ (AtMost-create_all vmo plan.create) (λ u.
        AtMost-bind_free (n + k) _ _ (AtMost-ask 0 _ (harmless.listing _ _)) (λ latest.
          AtMost-bind_free (n + k) _ _ (AtMost-update_owners vmo latest.stateful_sets)
            (λ v. AtMost-bind n k _ _ hu (λ w. hd))))

  AtMost-outcome_of :
      (plan : StatefulSetPlan) (r : Result (Unit {0})) → AtMost weight 0 (outcome_of plan r)
  unfolding outcome_of
  AtMost-outcome_of plan (ok u) = AtMost-pure 0 _
  AtMost-outcome_of plan (err e) = AtMost-pure 0 _
  AtMost-outcome_of plan panic = AtMost-lift 0 panic

  pub AtMost-carry_out :
      (n : ℕ) (config : Config) (vmo : Vmi) (expected_list : List StatefulSet)
      (plan : StatefulSetPlan)
      → AtMost weight n (apply_plan config vmo expected_list plan)
      → AtMost weight n (carry_out config vmo expected_list plan)
  unfolding carry_out
  AtMost-carry_out n config vmo expected_list plan h = record {
    bound = λ env tr.
        omega (
          arith,
          (AtMost-bind n 0 _ _ (AtMost-attempt n _ h) (AtMost-outcome_of plan)).bound env tr,
        );
  }

pub deletions-Harmless : Harmless deletions
deletions-Harmless = record {
  listing = λ ns l. omega arith;
  creating = λ ns sts. omega arith;
  finding = λ ns name. omega arith;
  owning = λ ns p. omega arith;
  asking = λ m u b. omega arith;
}

pub changes-Harmless : Harmless changes
changes-Harmless = record {
  listing = λ ns l. omega arith;
  creating = λ ns sts. omega arith;
  finding = λ ns name. omega arith;
  owning = λ ns p. omega arith;
  asking = λ m u b. omega arith;
}
