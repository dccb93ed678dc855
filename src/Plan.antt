-- ===== src/Plan.antt =====
-- pkg/resources/statefulsets/plan.go: which stateful sets to create, update and delete.
-- `diff` is `diff.Diff` of github.com/verrazzano/pkg, and `order` is the order in which Go's loops
-- meet the entries of a map. Quantities are of type `int32`.
pub mod Decision
pub mod Safety
pub mod ByName
pub mod Members
pub mod Entries
use verrazzano_monitoring_op.Prelude.{
  String, Bool, true, false, not, ◌&&◌, ◌||◌, Option, none, some, List, [], ◌∷◌, ◌++◌, ◌=ₜ◌,
  if◌then◌else◌,
}
use verrazzano_monitoring_op.Prelude.Int.{ℤ, pos, ltb_ℤ, leb_ℤ, eqb_ℤ, quot, add32}
use verrazzano_monitoring_op.Prelude.Dict.{Dict, lookup, insert, has_key}
use verrazzano_monitoring_op.Prelude.Io.{Error, Result, ok, panic}
use verrazzano_monitoring_op.Prelude.Io.Fallible.{◌>>=◌}
use verrazzano_monitoring_op.Containers.{copy_immutable_env_vars}
use verrazzano_monitoring_op.Kube.{StatefulSet}

abbrev pub min_cluster_size : ℤ
min_cluster_size = pos 3

abbrev pub elasticsearch_master : String
elasticsearch_master = "es-master"

pub record StatefulSetPlan : Type 0 where
  pub create : List StatefulSet
  pub update : List StatefulSet
  pub delete : List StatefulSet
  pub conflict : Option Error
  pub existing_cluster : Bool
  pub bounce_nodes : Bool

pub record StatefulSetMapping : Type 0 where
  pub existing : Dict StatefulSet
  pub expected : Dict StatefulSet
  pub is_scale_down_allowed : Bool
  pub existing_size : ℤ
  pub expected_size : ℤ

unfoldable pub sum_sizes : (StatefulSet → ℤ) → ℤ → List StatefulSet → ℤ
unfolding add32
sum_sizes size total [] = total
sum_sizes size total (sts ∷ list) = sum_sizes size (add32 total (size sts)) list

unfoldable pub by_name : Dict StatefulSet → List StatefulSet → Dict StatefulSet
unfolding insert
by_name m [] = m
by_name m (sts ∷ list) = by_name (insert sts.name sts m) list

-- `expectedList[0].Name == existingList[0].Name`
pub same_first : List StatefulSet → List StatefulSet → Result Bool
same_first [] existing_list = panic
same_first (x ∷ xs) [] = panic
same_first (x ∷ xs) (y ∷ ys) = ok (x.name =ₜ y.name)

pub is_single : ℤ → List StatefulSet → List StatefulSet → Result Bool
unfolding same_first
is_single existing_size existing_list expected_list =
    if eqb_ℤ existing_size (pos 1) then same_first expected_list existing_list else ok false

-- the two tests of the last branch
unfoldable pub keeps_majority : ℤ → ℤ → Bool
unfolding quot
keeps_majority existing_size expected_size =
    leb_ℤ min_cluster_size expected_size && ltb_ℤ (quot existing_size 2) expected_size

pub allow_scale_down : ℤ → ℤ → Result Bool → Result Bool
unfolding keeps_majority
allow_scale_down existing_size expected_size single =
    if eqb_ℤ expected_size (pos 0) then ok true else (do
      is_one ← single
      ok (if is_one then true else keeps_majority existing_size expected_size))

unfoldable pub create_stateful_set_mapping :
    List StatefulSet → List StatefulSet → Result StatefulSetMapping
unfolding sum_sizes by_name is_single allow_scale_down
create_stateful_set_mapping existing_list expected_list = do
  let existing_size = sum_sizes (λ sts. sts.ready_replicas) (pos 0) existing_list
  let expected_size = sum_sizes (λ sts. sts.replicas) (pos 0) expected_list
  allowed ←
      allow_scale_down existing_size expected_size
        (is_single existing_size existing_list expected_list)
  ok (record {
    existing = by_name [] existing_list;
    expected = by_name [] expected_list;
    is_scale_down_allowed = allowed;
    existing_size = existing_size;
    expected_size = expected_size;
  })

unfoldable pub copy_from_existing : StatefulSet → StatefulSet → StatefulSet
unfolding copy_immutable_env_vars
copy_from_existing expected existing = record expected {
  volume_claim_templates = existing.volume_claim_templates;
  selector = existing.selector;
  containers = copy_immutable_env_vars expected.containers existing.containers elasticsearch_master;
}

module _ (diff : StatefulSet → StatefulSet → String)
    (order : Dict StatefulSet → Dict StatefulSet) where
  -- the second branch of the first loop: the changed set, if it is to be updated
  needs_update : StatefulSet → StatefulSet → Bool
  needs_update existing expected =
      not (diff existing expected =ₜ "") || not (eqb_ℤ existing.replicas expected.replicas)

  update_or_skip : Bool → StatefulSet → StatefulSet → StatefulSetPlan → StatefulSetPlan
  unfolding needs_update copy_from_existing
  update_or_skip allowed expected existing plan =
      let copied = copy_from_existing expected existing in
      if allowed || not plan.existing_cluster
      then (if needs_update existing copied
          then record plan { update = plan.update ++ copied ∷ [] }
          else plan)
      else plan

  plan_expected : Bool → StatefulSet → Option StatefulSet → StatefulSetPlan → StatefulSetPlan
  unfolding update_or_skip
  plan_expected allowed expected none plan = record plan { create = plan.create ++ expected ∷ [] }
  plan_expected allowed expected (some existing) plan =
      update_or_skip allowed expected existing plan

  pub plan_expecteds : StatefulSetMapping → Dict StatefulSet → StatefulSetPlan → StatefulSetPlan
  unfolding plan_expected
  plan_expecteds mapping [] plan = plan
  plan_expecteds mapping ((name, expected) ∷ rest) plan =
      plan_expecteds mapping rest
        (plan_expected mapping.is_scale_down_allowed expected (lookup name mapping.existing) plan)

  plan_existing : StatefulSetMapping → String → StatefulSet → StatefulSetPlan → StatefulSetPlan
  unfolding has_key
  plan_existing mapping name existing plan =
      if not (has_key name mapping.expected) && mapping.is_scale_down_allowed
      then record plan { delete = plan.delete ++ existing ∷ [] }
      else plan

  pub plan_existings : StatefulSetMapping → Dict StatefulSet → StatefulSetPlan → StatefulSetPlan
  unfolding plan_existing
  plan_existings mapping [] plan = plan
  plan_existings mapping ((name, existing) ∷ rest) plan =
      plan_existings mapping rest (plan_existing mapping name existing plan)

  add_conflict : StatefulSetMapping → StatefulSetPlan → StatefulSetPlan
  add_conflict mapping plan =
      if not mapping.is_scale_down_allowed && plan.existing_cluster
      then record plan { conflict = some "skipping OpenSearch StatefulSet delete/update" }
      else plan

  empty_plan : StatefulSetMapping → StatefulSetPlan
  empty_plan mapping = record {
    create = [];
    update = [];
    delete = [];
    conflict = none;
    existing_cluster = ltb_ℤ (pos 0) mapping.existing_size;
    bounce_nodes = eqb_ℤ mapping.existing_size (pos 1);
  }

  unfoldable pub plan_of : StatefulSetMapping → StatefulSetPlan
  unfolding plan_expecteds plan_existings add_conflict empty_plan
  plan_of mapping = add_conflict mapping (
      plan_existings mapping (order mapping.existing)
        (plan_expecteds mapping (order mapping.expected) (empty_plan mapping)))

  unfoldable pub create_plan : List StatefulSet → List StatefulSet → Result StatefulSetPlan
  unfolding plan_of create_stateful_set_mapping
  create_plan existing_list expected_list = do
    mapping ← create_stateful_set_mapping existing_list expected_list
    ok (plan_of mapping)
