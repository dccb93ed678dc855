-- ===== src/Policy.antt =====
-- The documents of index state management policies, pkg/opensearch/ism.go. `diff_states` and
-- `diff_templates` are `diff.Diff` at the two types that it is used at.
use verrazzano_monitoring_op.Prelude.{
  ℕ, String, Bool, false, not, ◌||◌, Option, none, some, List, [], ◌∷◌, ◌=ₜ◌, if◌then◌else◌, any,
}
use verrazzano_monitoring_op.Prelude.Int.{ℤ, pos}
use verrazzano_monitoring_op.Prelude.Io.{Result, ok, panic}
use verrazzano_monitoring_op.Vmi.{IndexManagementPolicy, RolloverPolicy}

abbrev pub default_min_index_age : String
default_min_index_age = "7d"

abbrev pub default_rollover_index_age : String
default_rollover_index_age = "1d"

abbrev pub vmi_managed_policy : String
vmi_managed_policy = "__vmi-managed__"

-- a number in a `map[string]interface{}`: an `int` where the code has put it there, a `float64` where
-- a document was decoded (a whole one here)
pub data Number : Type 0 where
  int : ℤ → Number
  float64 : ℤ → Number

-- an action is a JSON object: the two that the operator writes, and any other by its text
pub data Action : Type 0 where
  rollover : Option Number → Option String → String → Action  -- min_doc_count, min_size, min_index_age
  delete : Action
  other : String → Action

pub record PolicyConditions : Type 0 where
  pub min_index_age : String
  pub min_rollover_age : String

pub record PolicyTransition : Type 0 where
  pub state_name : String
  pub conditions : Option PolicyConditions

pub record PolicyState : Type 0 where
  pub name : String
  pub actions : List Action
  pub transitions : List PolicyTransition

pub record IsmTemplate : Type 0 where
  pub index_patterns : List String
  pub priority : ℤ

pub record InlinePolicy : Type 0 where
  pub default_state : String
  pub description : String
  pub states : List PolicyState
  pub ism_template : List IsmTemplate

pub record IsmPolicy : Type 0 where
  pub id : Option String
  pub primary_term : Option ℕ
  pub sequence_number : Option ℕ
  pub status : Option ℕ
  pub policy : InlinePolicy

age_or : Option String → String → String
age_or none d = d
age_or (some s) d = s

built : Option ℤ → Option Number
built none = none
built (some n) = some (int n)

create_rollover_action : RolloverPolicy → Action
unfolding age_or built
create_rollover_action r =
    rollover (built r.min_doc_count) r.min_size (age_or r.min_index_age default_rollover_index_age)

unfoldable pub to_ism_policy : IndexManagementPolicy → IsmPolicy
unfolding create_rollover_action age_or
to_ism_policy policy = record {
  id = none;
  primary_term = none;
  sequence_number = none;
  status = none;
  policy = record {
    default_state = "ingest";
    description = vmi_managed_policy;
    ism_template = record { priority = pos 1; index_patterns = policy.index_pattern ∷ [] } ∷ [];
    states =
        record {
          name = "ingest";
          actions = create_rollover_action policy.rollover ∷ [];
          transitions =
              record {
                state_name = "delete";
                conditions = some (record {
                  min_index_age = age_or policy.min_index_age default_min_index_age;
                  min_rollover_age = "";
                });
              }
              ∷ [];
        }
        ∷ record { name = "delete"; actions = delete ∷ []; transitions = [] }
        ∷ [];
  };
}

-- what is there before the body is decoded
abbrev pub empty_policy : IsmPolicy
empty_policy = record {
  id = none;
  primary_term = none;
  sequence_number = none;
  status = none;
  policy = record { default_state = ""; description = ""; states = []; ism_template = [] };
}

unfoldable pub policy_needs_update :
    (List PolicyState → List PolicyState → String)
    → (List IsmTemplate → List IsmTemplate → String)
    → IsmPolicy
    → IsmPolicy
    → Bool
policy_needs_update diff_states diff_templates new old =
    not (new.policy.default_state =ₜ old.policy.default_state)
    || not (new.policy.description =ₜ old.policy.description)
    || not (diff_states new.policy.states old.policy.states =ₜ "")
    || not (diff_templates new.policy.ism_template old.policy.ism_template =ₜ "")

unlisted : Option String → List String → Result Bool
unfolding any
unlisted none names = panic
unlisted (some id) names = ok (not (any names (λ name. name =ₜ id)))

-- `names` are the keys of the map of the expected policies
unfoldable pub is_eligible_for_deletion : IsmPolicy → List String → Result Bool
unfolding unlisted
is_eligible_for_deletion policy names =
    if policy.policy.description =ₜ vmi_managed_policy then unlisted policy.id names else ok false
