-- ===== src/StatefulSets/Removals.antt =====
-- What one run of `CreateStatefulSets` (pkg/vmo/statefulset.go) may take away from a cluster.
use verrazzano_monitoring_op.Prelude.{Option, String, ◌≡◌, ◌≢◌, none, List, [], ◌∷◌, arith}
use verrazzano_monitoring_op.Prelude.Io.{lift, Result, ok, err, panic}
use verrazzano_monitoring_op.Prelude.Dict.{Dict}
use verrazzano_monitoring_op.Prelude.Io.Cost.{
  AtMost, AtMost-pure, AtMost-lift, AtMost-if, AtMost-attempt, AtMost-bind, AtMost-bind_free,
}
use verrazzano_monitoring_op.Server.{Config}
use verrazzano_monitoring_op.Server.Costs.{AtMost-ask}
use verrazzano_monitoring_op.Health.Costs.{AtMost-is_green, AtMost-is_updated}
use verrazzano_monitoring_op.Vmi.{Vmi}
use verrazzano_monitoring_op.Kube.{StorageClass, StatefulSet}
use verrazzano_monitoring_op.Plan.{StatefulSetPlan, create_plan}
use verrazzano_monitoring_op.Plan.Safety.{conflict_freezes}
use verrazzano_monitoring_op.StatefulSets.{
  get_initial_master_nodes, prepare, create_stateful_sets, go_on, write_stateful_set, update_one,
  update_all, delete_sts, scale_down_stateful_set, delete_first, carry_out,
}
use verrazzano_monitoring_op.StorageClasses.Costs.{AtMost-override}
use verrazzano_monitoring_op.StatefulSets.Costs.{
  deletions, changes, AtMost-apply_plan, AtMost-carry_out, deletions-Harmless, changes-Harmless,
}

update_one_deletes_none :
    (config : Config) (vmo : Vmi) (sts : StatefulSet) (plan : StatefulSetPlan)
    → AtMost deletions 0 (update_one config vmo sts plan)
unfolding update_one write_stateful_set
update_one_deletes_none config vmo sts plan =
    AtMost-bind_free 0 _ _
      (AtMost-if 0 _ _ _ (AtMost-is_green deletions-Harmless.asking config vmo) (AtMost-pure 0 tt))
      (λ u. AtMost-bind_free 0 _ _ (AtMost-ask 0 _ (omega arith)) (λ r.
        AtMost-if 0 _ _ _
          (AtMost-bind_free 0 _ _ (AtMost-ask 0 _ (omega arith)) (λ q. AtMost-pure 0 tt))
          (AtMost-pure 0 tt)))

update_all_deletes_none :
    (config : Config) (vmo : Vmi) (list : List StatefulSet) (plan : StatefulSetPlan)
    → AtMost deletions 0 (update_all config vmo list plan)
unfolding update_all
update_all_deletes_none config vmo [] plan = AtMost-pure 0 tt
update_all_deletes_none config vmo (sts ∷ list) plan =
    AtMost-bind_free 0 _ _ (update_one_deletes_none config vmo sts plan)
      (λ u. update_all_deletes_none config vmo list plan)

delete_sts_once : (vmo : Vmi) (sts : StatefulSet) → AtMost deletions 1 (delete_sts vmo sts)
unfolding delete_sts
delete_sts_once vmo sts = AtMost-bind 1 0 _ _ (AtMost-ask 1 _ (omega arith)) (λ r. AtMost-pure 0 tt)

scale_down_deletes_once :
    (config : Config) (expected_list : List StatefulSet) (sts : StatefulSet) (vmo : Vmi)
    → AtMost deletions 1 (scale_down_stateful_set config expected_list sts vmo)
unfolding scale_down_stateful_set
scale_down_deletes_once config expected_list sts vmo = AtMost-if 1 _ _ _ (delete_sts_once vmo sts) (
    AtMost-bind_free 1 _ _ (AtMost-is_updated deletions-Harmless.asking config vmo) (λ u.
      AtMost-if 1 _ _ _
        (AtMost-bind_free 1 _ _ (AtMost-ask 0 _ (omega arith)) (λ r. AtMost-pure 1 tt))
        (delete_sts_once vmo sts)))

delete_first_once :
    (config : Config) (expected_list list : List StatefulSet) (vmo : Vmi)
    → AtMost deletions 1 (delete_first config expected_list list vmo)
unfolding delete_first
delete_first_once config expected_list [] vmo = AtMost-pure 1 tt
delete_first_once config expected_list (sts ∷ rest) vmo =
    scale_down_deletes_once config expected_list sts vmo

carry_out_deletes_once :
    (config : Config) (vmo : Vmi) (expected_list : List StatefulSet) (plan : StatefulSetPlan)
    → AtMost deletions 1 (carry_out config vmo expected_list plan)
carry_out_deletes_once config vmo expected_list plan =
    AtMost-carry_out deletions-Harmless 1 config vmo expected_list plan (
      AtMost-apply_plan deletions-Harmless 0 1 config vmo expected_list plan
        (update_all_deletes_none config vmo plan.update plan)
        (delete_first_once config expected_list plan.delete vmo))

module _ (diff : StatefulSet → StatefulSet → String) (order : Dict StatefulSet → Dict StatefulSet)
    (new_list : Vmi → Option StorageClass → String → Result (List StatefulSet)) where
  go_on_deletes_once :
      (config : Config) (vmo : Vmi) (r : Result (List StatefulSet × StatefulSetPlan))
      → AtMost deletions 1 (go_on diff order new_list config vmo r)
  unfolding go_on
  go_on_deletes_once config vmo (ok (expected_list, plan)) =
      carry_out_deletes_once config vmo expected_list plan
  go_on_deletes_once config vmo (err e) = AtMost-pure 1 _
  go_on_deletes_once config vmo panic = AtMost-lift 1 panic

  -- Whatever the servers answer, whatever sets are expected and whatever is planned, one run deletes
  -- at most one stateful set.
  pub create_stateful_sets_deletes_once :
      (config : Config) (vmo : Vmi)
      → AtMost deletions 1 (create_stateful_sets diff order new_list config vmo)
  unfolding create_stateful_sets prepare
  create_stateful_sets_deletes_once config vmo =
      AtMost-bind_free 1 _ _
        (AtMost-attempt 0 _ (
          AtMost-bind_free 0 _ _ (AtMost-override config vmo.spec.storage_class (λ n. omega arith))
            (λ c. AtMost-bind_free 0 _ _ (AtMost-ask 0 _ (omega arith)) (λ existing.
              AtMost-bind_free 0
                (lift (new_list vmo c (get_initial_master_nodes vmo existing.stateful_sets))) _
                (AtMost-lift 0 _)
                (λ expected_list.
                  AtMost-bind_free 0
                    (lift (create_plan diff order existing.stateful_sets expected_list)) _
                    (AtMost-lift 0 _) (λ plan. AtMost-pure 0 (expected_list, plan)))))))
        (go_on_deletes_once config vmo)

-- A plan with a conflict changes and removes no stateful set and no pod that is there.
pub conflict_changes_nothing :
    (diff : StatefulSet → StatefulSet → String) (order : Dict StatefulSet → Dict StatefulSet)
    (config : Config) (vmo : Vmi) (existing_list expected_list : List StatefulSet)
    {plan : StatefulSetPlan}
    → create_plan diff order existing_list expected_list ≡ ok plan
    → plan.conflict ≢ none
    → AtMost changes 0 (carry_out config vmo expected_list plan)
unfolding update_all delete_first
conflict_changes_nothing diff order config vmo existing_list expected_list {plan} h k =
    let (running, no_update, no_delete) =
      conflict_freezes diff order existing_list expected_list h k in
    let u : AtMost changes 0 (update_all config vmo plan.update plan) =
      rw no_update (AtMost-pure 0 tt) in
    let d : AtMost changes 0 (delete_first config expected_list plan.delete vmo) =
      rw no_delete (AtMost-pure 0 tt) in
    AtMost-carry_out changes-Harmless 0 config vmo expected_list plan
      (AtMost-apply_plan changes-Harmless 0 0 config vmo expected_list plan u d)
