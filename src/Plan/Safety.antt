-- ===== src/Plan/Safety.antt =====
-- When a plan may touch the sets of a running cluster: `createStatefulSetMapping` and `CreatePlan`
-- of pkg/resources/statefulsets/plan.go.
use verrazzano_monitoring_op.Prelude.{
  ap, ◌⊎◌, ◌≢◌, String, ◌≡◌, refl, ◌∙◌, inl, inr, Bool, true, false, Option, none, some, List, [],
  ◌∷◌, arith, Bool-cases,
}
use verrazzano_monitoring_op.Prelude.Io.{ok}
use verrazzano_monitoring_op.Prelude.Dict.{Dict, lookup}
use verrazzano_monitoring_op.Kube.{StatefulSet}
use verrazzano_monitoring_op.Plan.{
  add_conflict, empty_plan, StatefulSetPlan, StatefulSetMapping, create_stateful_set_mapping,
  plan_expected, plan_expecteds, plan_existing, plan_existings, plan_of, create_plan,
}
use verrazzano_monitoring_op.Plan.Decision.{
  decided, decided_total, mapping_with, Keeps, decided-Keeps,
}

module _ (diff : StatefulSet → StatefulSet → String)
    (order : Dict StatefulSet → Dict StatefulSet) where
  -- Planning never panics: the first sets are compared only where both lists have one.
  pub create_plan_total :
      (existing_list expected_list : List StatefulSet)
      → (p : StatefulSetPlan) × (create_plan diff order existing_list expected_list ≡ ok p)
  unfolding create_plan create_stateful_set_mapping decided
  create_plan_total existing_list expected_list =
      let (b, e) = decided_total existing_list expected_list in
      (plan_of diff order (mapping_with existing_list expected_list b), rw e refl)

  -- a plan that was made is that of the mapping with the decision taken
  pub plan_inversion :
      (existing_list expected_list : List StatefulSet) {p : StatefulSetPlan}
      → create_plan diff order existing_list expected_list ≡ ok p
      → (b : Bool) × (decided existing_list expected_list ≡ ok b)
        × (p ≡ plan_of diff order (mapping_with existing_list expected_list b))
  unfolding create_plan create_stateful_set_mapping decided
  plan_inversion existing_list expected_list h =
      let (b, e) = decided_total existing_list expected_list in (b, e, cc (rw e at h))

  -- what the loops leave alone when nothing may change
  record Frozen (p q : StatefulSetPlan) : Type 0 where
    update : q.update ≡ p.update
    delete : q.delete ≡ p.delete
    conflict : q.conflict ≡ p.conflict
    existing_cluster : q.existing_cluster ≡ p.existing_cluster

  Frozen-expected :
      (allowed : Bool) (expected : StatefulSet) (old : Option StatefulSet) (p : StatefulSetPlan)
      → allowed ≡ false
      → p.existing_cluster ≡ true
      → Frozen p (plan_expected diff order allowed expected old p)
  unfolding plan_expected
  Frozen-expected allowed expected none p h k = ground arith
  Frozen-expected allowed expected (some old) p h k = rw (h, k) (ground arith)

  Frozen-expecteds :
      (m : StatefulSetMapping) (sets : Dict StatefulSet) (p : StatefulSetPlan)
      → m.is_scale_down_allowed ≡ false
      → p.existing_cluster ≡ true
      → Frozen p (plan_expecteds diff order m sets p)
  unfolding plan_expecteds
  Frozen-expecteds m [] p h k = ground arith
  Frozen-expecteds m ((name, expected) ∷ rest) p h k =
      let p' =
        plan_expected diff order m.is_scale_down_allowed expected (lookup name m.existing) p in
      let one = Frozen-expected m.is_scale_down_allowed expected (lookup name m.existing) p h k in
      ground (arith, Frozen-expecteds m rest p' h (one.existing_cluster ∙ k))

  -- the second loop changes what is to be deleted, and only if that is allowed
  pub existings_lem :
      (m : StatefulSetMapping) (sets : Dict StatefulSet) (p : StatefulSetPlan)
      → ((plan_existings diff order m sets p).update ≡ p.update)
        × ((plan_existings diff order m sets p).create ≡ p.create)
        × ((plan_existings diff order m sets p).existing_cluster ≡ p.existing_cluster)
        × ((plan_existings diff order m sets p).conflict ≡ p.conflict)
        × (m.is_scale_down_allowed ≡ false → (plan_existings diff order m sets p).delete ≡ p.delete)
  unfolding plan_existings
  existings_lem m [] p = ground arith
  existings_lem m ((name, existing) ∷ rest) p =
      ground (arith, existings_lem m rest (plan_existing diff order m name existing p))

  running-expected :
      (allowed : Bool) (expected : StatefulSet) (old : Option StatefulSet) (p : StatefulSetPlan)
      → ((plan_expected diff order allowed expected old p).existing_cluster ≡ p.existing_cluster)
        × ((plan_expected diff order allowed expected old p).conflict ≡ p.conflict)
  unfolding plan_expected
  running-expected allowed expected none p = ground arith
  running-expected allowed expected (some old) p = ground arith

  running-expecteds :
      (m : StatefulSetMapping) (sets : Dict StatefulSet) (p : StatefulSetPlan)
      → ((plan_expecteds diff order m sets p).existing_cluster ≡ p.existing_cluster)
        × ((plan_expecteds diff order m sets p).conflict ≡ p.conflict)
  unfolding plan_expecteds
  running-expecteds m [] p = (refl, refl)
  running-expecteds m ((name, expected) ∷ rest) p =
      let p' =
        plan_expected diff order m.is_scale_down_allowed expected (lookup name m.existing) p in
      ground (
        arith,
        running-expecteds m rest p',
        running-expected m.is_scale_down_allowed expected (lookup name m.existing) p,
      )

  plan_frozen :
      (m : StatefulSetMapping)
      → m.is_scale_down_allowed ≡ false
      → (plan_of diff order m).existing_cluster ≡ true
      → ((plan_of diff order m).update ≡ [])
        × ((plan_of diff order m).delete ≡ [])
        × ((plan_of diff order m).conflict ≢ none)
  unfolding plan_of empty_plan add_conflict
  plan_frozen m h k =
      let p0 = empty_plan diff order m in
      let p1 = plan_expecteds diff order m (order m.expected) p0 in
      ground (
        arith,
        existings_lem m (order m.existing) p1,
        running-expecteds m (order m.expected) p0,
        Frozen-expecteds m (order m.expected) p0 h,
      )

  plan_allowed :
      (m : StatefulSetMapping)
      → (m.is_scale_down_allowed ≡ true) ⊎ ((plan_of diff order m).existing_cluster ≡ false)
      → (plan_of diff order m).conflict ≡ none
  unfolding plan_of empty_plan add_conflict
  plan_allowed m h =
      let p0 = empty_plan diff order m in
      let p1 = plan_expecteds diff order m (order m.expected) p0 in
      ground
        (arith, existings_lem m (order m.existing) p1, running-expecteds m (order m.expected) p0)

  -- A plan with a conflict is one for a running cluster, and it updates and deletes nothing.
  pub conflict_freezes :
      (existing_list expected_list : List StatefulSet) {p : StatefulSetPlan}
      → create_plan diff order existing_list expected_list ≡ ok p
      → p.conflict ≢ none
      → (p.existing_cluster ≡ true) × (p.update ≡ []) × (p.delete ≡ [])
  conflict_freezes existing_list expected_list h k =
      let (b, e, f) = plan_inversion existing_list expected_list h in
      let m = mapping_with existing_list expected_list b in
      ground (arith, plan_frozen m, plan_allowed m)

-- Whatever `diff` finds and in whatever order the maps are walked, a plan that updates or deletes a
-- set of a running cluster is made only if no nodes are wanted, if the one node that is ready
-- belongs to a cluster that keeps its first set, or if at least three nodes are wanted and they are
-- more than half of those that are ready.
pub changes_keep_majority :
    (diff : StatefulSet → StatefulSet → String) (order : Dict StatefulSet → Dict StatefulSet)
    (existing_list expected_list : List StatefulSet) {p : StatefulSetPlan}
    → create_plan diff order existing_list expected_list ≡ ok p
    → p.existing_cluster ≡ true
    → (p.update ≢ []) ⊎ (p.delete ≢ [])
    → Keeps existing_list expected_list
changes_keep_majority diff order existing_list expected_list {p} h running changed =
    let (b, e, f) = plan_inversion diff order existing_list expected_list h in
    elim (Bool-cases b) [
      | inl yes_b ↦ decided-Keeps existing_list expected_list (e ∙ ap ok yes_b)
      | inr no_b ↦
          let m = mapping_with existing_list expected_list b in
          absurd (ground (arith, plan_frozen diff order m))
    ]
