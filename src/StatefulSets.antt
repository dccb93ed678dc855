-- ===== src/StatefulSets.antt =====
-- pkg/vmo/statefulset.go, with the claim names of pkg/resources/statefulsets/pvc.go.
-- `new_list` is `statefulsets.New`, which builds the pod templates of the expected sets and may
-- fail; `diff` and `order` are those of `Plan`. Log calls are left out.
pub mod Costs
pub mod Removals
pub mod Green
use verrazzano_monitoring_op.Prelude.{
  ℕ, zero, suc, String, ◌<>◌, Bool, true, false, not, ◌&&◌, ◌||◌, Option, some, List, [], ◌∷◌, ◌++◌,
  if◌then◌else◌,
}
use verrazzano_monitoring_op.Prelude.Int.{pos, negsuc, pos_part, ltb_ℤ, add32}
use verrazzano_monitoring_op.Prelude.Io.{
  Error, Result, ok, err, panic, pure, crash, lift, attempt, ◌>>=◌, ◌>>◌,
}
use verrazzano_monitoring_op.Prelude.Text.{itoa}
use verrazzano_monitoring_op.Prelude.Dict.{Dict}
use verrazzano_monitoring_op.Vmi.{Vmi}
use verrazzano_monitoring_op.Nodes.{initial_master_nodes, master_nodes}
use verrazzano_monitoring_op.Kube.{Labels, StatefulSet, StorageClass, OwnerReference}
use verrazzano_monitoring_op.Plan.{StatefulSetPlan, create_plan}
use verrazzano_monitoring_op.StorageClasses.{get_storage_class_override}
use verrazzano_monitoring_op.Health.{is_green, is_updated}
use verrazzano_monitoring_op.Server.{
  Config, Client, list_stateful_sets, create_stateful_set, update_stateful_set, delete_stateful_set,
  delete_pod, get_pvc, update_pvc, ask,
}

-- the inner loop of `GetPVCNames`, from the ordinal `i` on
ordinal_names : String → String → ℕ → ℕ → List String
ordinal_names template sts_name i zero = []
ordinal_names template sts_name i (suc left) =
    (template <> "-" <> sts_name <> "-" <> itoa (pos i))
    ∷ ordinal_names template sts_name (suc i) left

template_names : List String → String → ℕ → List String
unfolding ordinal_names
template_names [] sts_name replicas = []
template_names (template ∷ templates) sts_name replicas =
    ordinal_names template sts_name 0 replicas ++ template_names templates sts_name replicas

unfoldable pub get_pvc_names : StatefulSet → List String
unfolding template_names
get_pvc_names sts = template_names sts.volume_claim_templates sts.name (pos_part sts.replicas)

unfoldable pub get_initial_master_nodes : Vmi → List StatefulSet → String
unfolding initial_master_nodes master_nodes
get_initial_master_nodes vmo [] = initial_master_nodes vmo.name (master_nodes vmo)
get_initial_master_nodes vmo (sts ∷ existing) = ""

abbrev pub vmi_owner : Vmi → OwnerReference
vmi_owner vmo = record {
  api_version = "verrazzano.io/v1";
  kind = "VerrazzanoMonitoringInstance";
  name = vmo.name;
  uid = vmo.uid;
}

unfoldable pub own_pvcs : Vmi → List String → Client (Unit {0})
unfolding ask
own_pvcs vmo [] = pure tt
own_pvcs vmo (pvc_name ∷ pvc_names) = do
  found ← ask (get_pvc vmo.namespace pvc_name)
  ask (update_pvc vmo.namespace (record found.pvc { owner_references = vmi_owner vmo ∷ [] }))
  own_pvcs vmo pvc_names

unfoldable pub update_owner_for_pvcs : Vmi → StatefulSet → Client (Unit {0})
unfolding own_pvcs get_pvc_names
update_owner_for_pvcs vmo sts = own_pvcs vmo (get_pvc_names sts)

unfoldable pub update_owners : Vmi → List StatefulSet → Client (Unit {0})
unfolding update_owner_for_pvcs
update_owners vmo [] = pure tt
update_owners vmo (sts ∷ list) = do update_owner_for_pvcs vmo sts; update_owners vmo list

-- what `updateStatefulSet` does once the cluster may be updated
write_stateful_set : Vmi → StatefulSet → StatefulSetPlan → Client (Unit {0})
unfolding ask
write_stateful_set vmo sts plan = do
  ask (update_stateful_set vmo.namespace sts)
  if plan.bounce_nodes
      then (ask (delete_pod vmo.namespace (sts.name <> "-0")) >> pure tt)
      else pure tt

unfoldable pub update_one : Config → Vmi → StatefulSet → StatefulSetPlan → Client (Unit {0})
unfolding write_stateful_set is_green
update_one config vmo sts plan = do
  if not plan.bounce_nodes && plan.existing_cluster then is_green config vmo else pure tt
  write_stateful_set vmo sts plan

unfoldable pub update_all : Config → Vmi → List StatefulSet → StatefulSetPlan → Client (Unit {0})
unfolding update_one
update_all config vmo [] plan = pure tt
update_all config vmo (sts ∷ list) plan = do
  update_one config vmo sts plan
  update_all config vmo list plan

-- the closure `deleteSTS`
delete_sts : Vmi → StatefulSet → Client (Unit {0})
unfolding ask
delete_sts vmo sts = ask (delete_stateful_set vmo.namespace sts.name) >> pure tt

abbrev is_empty : List StatefulSet → Bool
is_empty [] = true
is_empty (x ∷ xs) = false

unfoldable pub scale_down_stateful_set :
    Config → List StatefulSet → StatefulSet → Vmi → Client (Unit {0})
unfolding delete_sts is_updated ask add32
scale_down_stateful_set config expected_list sts vmo =
    if is_empty expected_list || ltb_ℤ sts.ready_replicas (pos 1) then delete_sts vmo sts else (do
      is_updated config vmo
      if ltb_ℤ (pos 1) sts.replicas
          then (ask (
                update_stateful_set vmo.namespace
                  (record sts { replicas = add32 sts.replicas (negsuc 0) }))
              >> pure tt)
          else delete_sts vmo sts)

-- the loop that breaks after its first round
unfoldable pub delete_first : Config → List StatefulSet → List StatefulSet → Vmi → Client (Unit {0})
unfolding scale_down_stateful_set
delete_first config expected_list [] vmo = pure tt
delete_first config expected_list (sts ∷ rest) vmo =
    scale_down_stateful_set config expected_list sts vmo

unfoldable pub create_all : Vmi → List StatefulSet → Client (Unit {0})
unfolding ask
create_all vmo [] = pure tt
create_all vmo (sts ∷ list) = do ask (create_stateful_set vmo.namespace sts); create_all vmo list

abbrev pub vmi_selector : Vmi → Labels
vmi_selector vmo = ("vmo.v1.verrazzano.io", vmo.name) ∷ []

-- the calls of `CreateStatefulSets` that carry out a plan; an error ends them
unfoldable pub apply_plan : Config → Vmi → List StatefulSet → StatefulSetPlan → Client (Unit {0})
unfolding create_all update_owners update_all delete_first ask
apply_plan config vmo expected_list plan = do
  create_all vmo plan.create
  latest ← ask (list_stateful_sets vmo.namespace (vmi_selector vmo))
  update_owners vmo latest.stateful_sets
  update_all config vmo plan.update plan
  delete_first config expected_list plan.delete vmo

-- the two results of `CreateStatefulSets`
abbrev pub Outcome : Type 0
Outcome = Bool × Option Error

-- the error that is returned: that of a call, or else the plan's conflict
outcome_of : StatefulSetPlan → Result (Unit {0}) → Client Outcome
outcome_of plan (ok u) = pure (plan.existing_cluster, plan.conflict)
outcome_of plan (err e) = pure (plan.existing_cluster, some e)
outcome_of plan panic = crash

unfoldable pub carry_out : Config → Vmi → List StatefulSet → StatefulSetPlan → Client Outcome
unfolding apply_plan outcome_of
carry_out config vmo expected_list plan = do
  done ← attempt (apply_plan config vmo expected_list plan)
  outcome_of plan done

module _ (diff : StatefulSet → StatefulSet → String) (order : Dict StatefulSet → Dict StatefulSet)
    (new_list : Vmi → Option StorageClass → String → Result (List StatefulSet)) where
  -- the part before there is a plan, whose errors are returned with `false`
  prepare : Config → Vmi → Client (List StatefulSet × StatefulSetPlan)
  unfolding get_storage_class_override ask create_plan get_initial_master_nodes
  prepare config vmo = do
    storage_class ← get_storage_class_override config vmo.spec.storage_class
    existing ← ask (list_stateful_sets vmo.namespace (vmi_selector vmo))
    expected_list ←
        lift (new_list vmo storage_class (get_initial_master_nodes vmo existing.stateful_sets))
    plan ← lift (create_plan diff order existing.stateful_sets expected_list)
    pure (expected_list, plan)

  go_on : Config → Vmi → Result (List StatefulSet × StatefulSetPlan) → Client Outcome
  unfolding carry_out
  go_on config vmo (ok (expected_list, plan)) = carry_out config vmo expected_list plan
  go_on config vmo (err e) = pure (false, some e)
  go_on config vmo panic = crash

  unfoldable pub create_stateful_sets : Config → Vmi → Client Outcome
  unfolding prepare go_on
  create_stateful_sets config vmo = do
    prepared ← attempt (prepare config vmo)
    go_on config vmo prepared
