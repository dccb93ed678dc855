-- ===== src/Examples/Sets.antt =====
-- Runs of `CreateStatefulSets`.
use verrazzano_monitoring_op.Prelude.{
  ◌≤◌, String, ◌≡◌, refl, ap, ◌≢◌, true, false, Option, none, some, List, [], ◌∷◌, ◌=ₜ◌,
}
use verrazzano_monitoring_op.Prelude.Io.{Result, ok}
use verrazzano_monitoring_op.Prelude.Io.Cost.{AtMost, total}
use verrazzano_monitoring_op.Kube.{StatefulSet, StorageClass}
use verrazzano_monitoring_op.Plan.{StatefulSetPlan, create_plan}
use verrazzano_monitoring_op.StatefulSets.{create_stateful_sets, carry_out, update_one}
use verrazzano_monitoring_op.StatefulSets.Costs.{deletions, changes}
use verrazzano_monitoring_op.StatefulSets.Removals.{
  create_stateful_sets_deletes_once, conflict_changes_nothing,
}
use verrazzano_monitoring_op.StatefulSets.Green.{update_waits_for_green}
use verrazzano_monitoring_op.Vmi.{Vmi}
use verrazzano_monitoring_op.Examples.Inputs.{
  set_of, diff_rest, in_order, cluster, settings, server,
}

abbrev expect : Vmi → Option StorageClass → String → Result (List StatefulSet)
expect vmo storage_class initial = ok (set_of "es-master" 3 0 "b" ∷ [])

create_stateful_sets_deletes_once_example :
    AtMost deletions 1 (create_stateful_sets diff_rest in_order expect settings cluster)
create_stateful_sets_deletes_once_example =
    create_stateful_sets_deletes_once diff_rest in_order expect settings cluster

abbrev masters : List StatefulSet
masters = set_of "es-master" 3 3 "a" ∷ []

abbrev too_few : List StatefulSet
too_few = set_of "es-master" 1 0 "b" ∷ []

abbrev conflict_plan : StatefulSetPlan
conflict_plan = record {
  create = [];
  update = [];
  delete = [];
  conflict = some "skipping OpenSearch StatefulSet delete/update";
  existing_cluster = true;
  bounce_nodes = false;
}

refused : create_plan diff_rest in_order masters too_few ≡ ok conflict_plan
unfolding create_plan
refused = refl

conflict_changes_nothing_example :
    AtMost changes 0 (carry_out settings cluster too_few conflict_plan)
conflict_changes_nothing_example =
    conflict_changes_nothing diff_rest in_order settings cluster masters too_few refused (λ e. cc e)

abbrev update_plan : StatefulSetPlan
update_plan = record {
  create = [];
  update = set_of "es-master" 3 0 "b" ∷ [];
  delete = [];
  conflict = none;
  existing_cluster = true;
  bounce_nodes = false;
}

update_waits_for_green_example :
    ((update_one settings cluster (set_of "es-master" 3 0 "b") update_plan (server "yellow") []).0
      ≢ ok tt)
    × (total changes
          (update_one settings cluster
            (set_of "es-master" 3 0 "b")
            update_plan
            (server "yellow")
            []).1
        ≤ total changes [])
update_waits_for_green_example =
    update_waits_for_green settings cluster (set_of "es-master" 3 0 "b") update_plan
      (server "yellow") [] refl refl refl (λ g. not_green g.health)
  where
    not_green : ◌≡◌ {A = String} "yellow" "green" → ⊥
    not_green e = cc (ap (λ (s : String). s =ₜ "green") e)
