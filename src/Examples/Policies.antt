-- ===== src/Examples/Policies.antt =====
-- Index state management policies.
use verrazzano_monitoring_op.Prelude.{String, ◌≡◌, refl, none, some, List, [], ◌∷◌, Memᴰ}
use verrazzano_monitoring_op.Prelude.Io.{Result, ok}
use verrazzano_monitoring_op.Prelude.Io.Cost.{AtMost}
use verrazzano_monitoring_op.Vmi.{IndexManagementPolicy}
use verrazzano_monitoring_op.Policy.{IsmPolicy, PolicyState, IsmTemplate, to_ism_policy}
use verrazzano_monitoring_op.Server.{http, Reply}
use verrazzano_monitoring_op.Ism.{create_ism_policy, cleanup_policies, policy_names}
use verrazzano_monitoring_op.Ism.Spared.{deletes_policy, cleanup_spares_expected}
use verrazzano_monitoring_op.Ism.Settled.{create_ism_policy_settled}
use verrazzano_monitoring_op.Examples.Inputs.{settings, answer}

abbrev logs : IndexManagementPolicy
logs = record {
  policy_name = "logs";
  index_pattern = "app-*";
  min_index_age = none;
  rollover = record { min_index_age = none; min_size = none; min_doc_count = none };
}

cleanup_spares_expected_example :
    AtMost (deletes_policy "http://os" "logs") 0 (cleanup_policies settings "http://os" (logs ∷ []))
unfolding policy_names
cleanup_spares_expected_example =
    cleanup_spares_expected settings "http://os" "logs" (logs ∷ []) (Memᴰ.head refl)

-- a policy that the instance no longer has, and one that it has
abbrev stored : IsmPolicy
stored = record (to_ism_policy logs) { id = some "logs" }

abbrev old_policy : IsmPolicy
old_policy = record stored { id = some "old" }

abbrev holding : Reply
holding = record (answer 200 "") { policy = stored; policies = stored ∷ old_policy ∷ [] }

cleanup_run : cleanup_policies settings "http://os" (logs ∷ []) (λ tr c. holding) [] ≡ (
  ok tt,
  http "GET" "http://os/_plugins/_ism/policies" ""
      ∷ http "DELETE" "http://os/_plugins/_ism/policies/old" ""
      ∷ [],
)
unfolding cleanup_policies to_ism_policy
cleanup_run = refl

abbrev no_state_diff : List PolicyState → List PolicyState → String
no_state_diff a b = ""

abbrev no_template_diff : List IsmTemplate → List IsmTemplate → String
no_template_diff a b = ""

abbrev serialized : IsmPolicy → Result String
serialized p = ok "{}"

create_ism_policy_settled_example :
    create_ism_policy no_state_diff no_template_diff serialized settings "http://os" logs
      (λ tr c. holding)
      []
    ≡ (ok tt, http "GET" "http://os/_plugins/_ism/policies/logs" "" ∷ [])
unfolding to_ism_policy
create_ism_policy_settled_example =
    create_ism_policy_settled no_state_diff no_template_diff (λ s. refl) (λ t. refl) serialized
      settings "http://os" logs (λ tr c. holding) [] holding refl refl refl refl refl refl refl
