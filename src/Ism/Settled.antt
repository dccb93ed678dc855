-- ===== src/Ism/Settled.antt =====
-- The policies that `createISMPolicy` of pkg/opensearch/ism.go leaves as they are.
use verrazzano_monitoring_op.Prelude.{
  String, ◌≡◌, refl, ap, ◌∙◌, true, false, none, some, List, [], ◌∷◌, ◌++◌, eq_iff, ◌=ₜ◌, map,
}
use verrazzano_monitoring_op.Prelude.Io.{Result, ok}
use verrazzano_monitoring_op.Policy.{
  int, float64, Action, rollover, delete, other, InlinePolicy, IsmPolicy, PolicyState, IsmTemplate,
  to_ism_policy, policy_needs_update,
}
use verrazzano_monitoring_op.Server.{Config, Call, http, Reply, ask}
use verrazzano_monitoring_op.Vmi.{IndexManagementPolicy}
use verrazzano_monitoring_op.Ism.{
  policy_url, status_of, get_policy_by_name, put_updated_policy, add_policy_to_existing_indices,
  create_ism_policy,
}

same_text : (s : String) → (s =ₜ s) ≡ true
same_text s = (eq_iff s s).1 refl

-- an action after it was written as JSON and decoded again; the rest of a document is decoded to the
-- types that it has
abbrev pub decoded_action : Action → Action
decoded_action (rollover none size age) = rollover none size age
decoded_action (rollover (some (int n)) size age) = rollover (some (float64 n)) size age
decoded_action (rollover (some (float64 n)) size age) = rollover (some (float64 n)) size age
decoded_action delete = delete
decoded_action (other text) = other text

abbrev pub decoded_state : PolicyState → PolicyState
decoded_state s = record s { actions = map decoded_action s.actions }

abbrev pub decoded_document : InlinePolicy → InlinePolicy
decoded_document p = record p { states = map decoded_state p.states }

-- without a count of documents, there is no number that decoding makes another one
unchanged :
    (policy : IndexManagementPolicy)
    → policy.rollover.min_doc_count ≡ none
    → decoded_document (to_ism_policy policy).policy ≡ (to_ism_policy policy).policy
unfolding to_ism_policy
unchanged policy h = rw h refl

module _ (diff_states : List PolicyState → List PolicyState → String)
    (diff_templates : List IsmTemplate → List IsmTemplate → String)
    (states_same : (s : List PolicyState) → diff_states s s ≡ "")
    (templates_same : (t : List IsmTemplate) → diff_templates t t ≡ "")
    (serialize : IsmPolicy → Result String) where
  same_document :
      (new old : IsmPolicy)
      → old.policy ≡ new.policy
      → policy_needs_update diff_states diff_templates new old ≡ false
  unfolding policy_needs_update
  same_document new old h =
      rw
        (
          h,
          states_same new.policy.states,
          templates_same new.policy.ism_template,
          same_text new.policy.default_state,
          same_text new.policy.description,
        )
        refl

  answered :
      (config : Config) (url : String) (env : List Call → Call → Reply) (tr : List Call)
      → config.new_request_error url ≡ none
      → (env tr (http "GET" url "")).error ≡ none
      → (env tr (http "GET" url "")).status ≡ 200
      → (env tr (http "GET" url "")).decode_error ≡ none
      → get_policy_by_name config url env tr ≡ (
        ok (record (env tr (http "GET" url "")).policy {
          status = some (
              status_of
                (env tr (http "GET" url "")).policy.status
                (env tr (http "GET" url "")).status);
        }),
        tr ++ http "GET" url "" ∷ [],
      )
  unfolding get_policy_by_name ask
  answered config url env tr request sent found decoded = rw (request, sent, found, decoded) refl

  -- For a policy that sets no count of documents for the rollover: where the request can be made, and the
  -- server answers the query for the policy with status 200 and a body that can be decoded to the
  -- policy's document as JSON gives it back, and `diff.Diff` finds no difference between equal values,
  -- the query is the only request, whatever the server would answer to others.
  pub create_ism_policy_settled :
      (config : Config) (endpoint : String) (policy : IndexManagementPolicy)
      (env : List Call → Call → Reply) (tr : List Call) (reply : Reply)
      → config.new_request_error (policy_url endpoint policy.policy_name) ≡ none
      → env tr (http "GET" (policy_url endpoint policy.policy_name) "") ≡ reply
      → reply.error ≡ none
      → reply.status ≡ 200
      → reply.decode_error ≡ none
      → policy.rollover.min_doc_count ≡ none
      → reply.policy.policy ≡ decoded_document (to_ism_policy policy).policy
      → create_ism_policy diff_states diff_templates serialize config endpoint policy env tr
        ≡ (ok tt, tr ++ http "GET" (policy_url endpoint policy.policy_name) "" ∷ [])
  unfolding create_ism_policy put_updated_policy add_policy_to_existing_indices
  create_ism_policy_settled config endpoint policy env tr reply request e sent found decoded
        uncounted same =
      let url = policy_url endpoint policy.policy_name in
      let old = env tr (http "GET" url "") in
      rw
        (
          answered config url env tr request (ap (λ r. r.error) e ∙ sent)
              (ap (λ r. r.status) e ∙ found) (ap (λ r. r.decode_error) e ∙ decoded),
          same_document (to_ism_policy policy)
              (record old.policy { status = some (status_of old.policy.status old.status) })
              (ap (λ r. r.policy.policy) e ∙ same ∙ unchanged policy uncounted),
        )
        refl
