-- ===== src/Examples/Plans.antt =====
-- Plans for stateful sets.
use verrazzano_monitoring_op.Prelude.{◌≡◌, refl, inl, true, false, none, some, List, [], ◌∷◌, Memᴰ}
use verrazzano_monitoring_op.Prelude.Io.{ok}
use verrazzano_monitoring_op.Kube.{StatefulSet}
use verrazzano_monitoring_op.Plan.{StatefulSetPlan, create_plan}
use verrazzano_monitoring_op.Plan.Decision.{Keeps}
use verrazzano_monitoring_op.Plan.Safety.{
  create_plan_total, conflict_freezes, changes_keep_majority,
}
use verrazzano_monitoring_op.Plan.Entries.{Walks, plan_creates_missing}
use verrazzano_monitoring_op.Examples.Inputs.{differ, set_of, diff_rest, in_order}

abbrev masters : List StatefulSet
masters = set_of "es-master" 3 3 "a" ∷ set_of "old-master" 2 2 "a" ∷ []

abbrev wanted : List StatefulSet
wanted = set_of "es-master" 3 0 "b" ∷ set_of "new-master" 1 0 "a" ∷ []

abbrev too_few : List StatefulSet
too_few = set_of "es-master" 1 0 "b" ∷ []

abbrev master_update : StatefulSet
master_update = set_of "es-master" 3 0 "b"

abbrev good_plan : StatefulSetPlan
good_plan = record {
  create = set_of "new-master" 1 0 "a" ∷ [];
  update = master_update ∷ [];
  delete = set_of "old-master" 2 2 "a" ∷ [];
  conflict = none;
  existing_cluster = true;
  bounce_nodes = false;
}

abbrev conflict_plan : StatefulSetPlan
conflict_plan = record {
  create = [];
  update = [];
  delete = [];
  conflict = some "skipping OpenSearch StatefulSet delete/update";
  existing_cluster = true;
  bounce_nodes = false;
}

planned : create_plan diff_rest in_order masters wanted ≡ ok good_plan
unfolding create_plan
planned = refl

refused : create_plan diff_rest in_order masters too_few ≡ ok conflict_plan
unfolding create_plan
refused = refl

walks : Walks in_order
walks d e = (λ h. h, λ h. h)

create_plan_total_example :
    (p : StatefulSetPlan) × (create_plan diff_rest in_order masters wanted ≡ ok p)
create_plan_total_example = create_plan_total diff_rest in_order masters wanted

conflict_freezes_example :
    (conflict_plan.existing_cluster ≡ true)
    × (conflict_plan.update ≡ [])
    × (conflict_plan.delete ≡ [])
conflict_freezes_example = conflict_freezes diff_rest in_order masters too_few refused (λ e. cc e)

changes_keep_majority_example : Keeps masters wanted
changes_keep_majority_example =
    changes_keep_majority diff_rest in_order masters wanted planned refl (inl (λ e. cc e))

plan_creates_missing_example : (s : StatefulSet) × Memᴰ s good_plan.create × (s.name ≡ "new-master")
plan_creates_missing_example =
    plan_creates_missing diff_rest in_order walks masters wanted planned
      (set_of "new-master" 1 0 "a") (Memᴰ.tail (Memᴰ.head refl))
      (differ _ _ refl, (differ _ _ refl, tt))
