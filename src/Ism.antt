-- ===== src/Ism.antt =====
-- The policies of an instance: `ConfigureISM` of pkg/opensearch/opensearch.go and what it calls in
-- pkg/opensearch/ism.go. `serialize` is `json.Marshal`. What the goroutine sends into its channel is
-- the result of the function.
pub mod Spared
pub mod Settled
pub mod Defaults
use verrazzano_monitoring_op.Prelude.{
  ℕ, zero, suc, ◌+◌, ◌-◌, ◌*◌, ◌/◌, ◌%◌, ◌≤◌, ◌<◌, String, ◌<>◌, ◌≡◌, refl, sym, ap, ◌∙◌, ◌≢◌, ◌↔◌,
  ◌⊎◌, inl, inr, Bool, true, false, not, ◌&&◌, ◌||◌, Option, none, some, List, [], ◌∷◌, ◌++◌, map,
  Memᴰ, append_assoc, append-nil, arith, eq_iff, ltb, leb, ◌==◌, ◌=ₜ◌, if◌then◌else◌, Bool-cases,
  Option-cases, length, get_elem?, get_or, take, All, any, all, select, any_of_mem, any_witness,
  mem_of_mem-select, mem-select,
}
use verrazzano_monitoring_op.Prelude.Int.{
  ℤ, pos, negsuc, pos_part, neg_part, sub_ℕ, ◌+ℤ◌, ltb_ℤ, leb_ℤ, eqb_ℤ, quot, add32, add64, wrap64,
  wrap32,
}
use verrazzano_monitoring_op.Prelude.Io.{
  Error, Result, ok, err, panic, Io, pure, raise, crash, lift, settle, attempt, call, continue,
  ◌>>=◌, ◌>>◌,
}
use verrazzano_monitoring_op.Prelude.Text.{digits}
use verrazzano_monitoring_op.Health.{get_open_search_http_endpoint, is_open_search_ready}
use verrazzano_monitoring_op.Policy.{
  IsmPolicy, PolicyState, IsmTemplate, to_ism_policy, empty_policy, policy_needs_update,
  is_eligible_for_deletion,
}
use verrazzano_monitoring_op.Server.{
  Config, Client, Call, http, Reply, ask, check_error, request, request_json,
}
use verrazzano_monitoring_op.Vmi.{Vmi, IndexManagementPolicy}

abbrev pub policy_url : String → String → String
policy_url endpoint name = endpoint <> "/_plugins/_ism/policies/" <> name

-- the document decides where it has a status of its own
unfoldable pub status_of : Option ℕ → ℕ → ℕ
status_of none status = status
status_of (some own) status = own

unfoldable pub get_policy_by_name : Config → String → Client IsmPolicy
unfolding ask status_of
get_policy_by_name config url = do
  check_error (config.new_request_error url)
  reply ← ask (http "GET" url "")
  if reply.status == 200
      then (check_error reply.decode_error
          >> pure
              (record reply.policy { status = some (status_of reply.policy.status reply.status) }))
      else pure (record empty_policy { status = some reply.status })

-- the URL and the status code for an update in place, or a creation
update_in_place : String → String → Option ℕ → Option ℕ → Result (String × ℕ)
unfolding digits
update_in_place endpoint name (some seq_no) (some term) = ok (
  policy_url endpoint name <> "?if_seq_no=" <> digits seq_no <> "&if_primary_term=" <> digits term,
  200,
)
update_in_place endpoint name none term = panic
update_in_place endpoint name (some seq_no) none = panic

update_target : String → String → IsmPolicy → Option ℕ → Result (String × ℕ)
unfolding update_in_place
update_target endpoint name existing none = panic
update_target endpoint name existing (some status) =
    if status == 200
    then update_in_place endpoint name existing.sequence_number existing.primary_term
    else if status == 404
    then ok (policy_url endpoint name, 201)
    else err "invalid status when fetching ISM Policy"

module _ (diff_states : List PolicyState → List PolicyState → String)
    (diff_templates : List IsmTemplate → List IsmTemplate → String)
    (serialize : IsmPolicy → Result String) where
  unfoldable pub put_updated_policy :
      Config → String → String → IsmPolicy → IsmPolicy → Client (Option IsmPolicy)
  unfolding update_target policy_needs_update ask
  put_updated_policy config endpoint name policy existing =
      if not (policy_needs_update diff_states diff_templates policy existing)
      then pure none
      else (do
        payload ← lift (serialize policy)
        target ← lift (update_target endpoint name existing existing.status)
        check_error (config.new_request_error target.0)
        reply ← ask (http "PUT" target.0 payload)
        if reply.status == target.1
            then (check_error reply.decode_error >> pure (some reply.policy))
            else raise "got another status code when updating policy")

-- `*updatedPolicy.ID`
id_of : IsmPolicy → Option String → Result String
id_of policy none = panic
id_of policy (some id) = ok id

unfoldable pub add_policy_to_existing_indices :
    Config → String → IndexManagementPolicy → Option IsmPolicy → Client (Unit {0})
unfolding id_of request
add_policy_to_existing_indices config endpoint policy none = pure tt
add_policy_to_existing_indices config endpoint policy (some updated) = do
  id ← lift (id_of updated updated.id)
  request config "POST" (endpoint <> "/_plugins/_ism/add/" <> policy.index_pattern)
      ("{\"policy_id\": \"" <> id <> "\"}")
      "got another status code when updating indicies for policy"
  pure tt

module _ (diff_states : List PolicyState → List PolicyState → String)
    (diff_templates : List IsmTemplate → List IsmTemplate → String)
    (serialize : IsmPolicy → Result String) where
  unfoldable pub create_ism_policy : Config → String → IndexManagementPolicy → Client (Unit {0})
  unfolding get_policy_by_name put_updated_policy to_ism_policy add_policy_to_existing_indices
  create_ism_policy config endpoint policy = do
    existing ← get_policy_by_name config (policy_url endpoint policy.policy_name)
    updated ←
        put_updated_policy diff_states diff_templates serialize config endpoint policy.policy_name
          (to_ism_policy policy) existing
    add_policy_to_existing_indices config endpoint policy updated

  unfoldable pub create_ism_policies :
      Config → String → List IndexManagementPolicy → Client (Unit {0})
  unfolding create_ism_policy
  create_ism_policies config endpoint [] = pure tt
  create_ism_policies config endpoint (policy ∷ policies) = do
    create_ism_policy config endpoint policy
    create_ism_policies config endpoint policies

unfoldable pub get_all_policies : Config → String → Client (List IsmPolicy)
unfolding request_json
get_all_policies config endpoint = do
  reply ←
      request_json config "GET" (endpoint <> "/_plugins/_ism/policies") ""
        "got another status code when querying policies for cleanup"
  pure reply.policies

unfoldable pub delete_policy : Config → String → String → Client (Unit {0})
unfolding request
delete_policy config endpoint name =
    request config "DELETE" (policy_url endpoint name) ""
      "got another status code when deleting policy"
    >> pure tt

delete_if_eligible : Config → String → Option String → Bool → Client (Unit {0})
unfolding delete_policy
delete_if_eligible config endpoint id false = pure tt
delete_if_eligible config endpoint (some id) true = delete_policy config endpoint id
delete_if_eligible config endpoint none true = crash

unfoldable pub delete_eligible : Config → String → List String → List IsmPolicy → Client (Unit {0})
unfolding delete_if_eligible is_eligible_for_deletion
delete_eligible config endpoint names [] = pure tt
delete_eligible config endpoint names (policy ∷ policies) = do
  b ← lift (is_eligible_for_deletion policy names)
  delete_if_eligible config endpoint policy.id b
  delete_eligible config endpoint names policies

unfoldable pub policy_names : List IndexManagementPolicy → List String
policy_names [] = []
policy_names (p ∷ ps) = p.policy_name ∷ policy_names ps

unfoldable pub cleanup_policies : Config → String → List IndexManagementPolicy → Client (Unit {0})
unfolding get_all_policies delete_eligible policy_names
cleanup_policies config endpoint policies = do
  all_policies ← get_all_policies config endpoint
  delete_eligible config endpoint (policy_names policies) all_policies

module _ (diff_states : List PolicyState → List PolicyState → String)
    (diff_templates : List IsmTemplate → List IsmTemplate → String)
    (serialize : IsmPolicy → Result String) where
  unfoldable pub configure_ism : Config → Vmi → Client (Unit {0})
  unfolding create_ism_policies cleanup_policies is_open_search_ready get_open_search_http_endpoint
  configure_ism config vmi = if not vmi.spec.opensearch.enabled then pure tt else (do
    ready ← is_open_search_ready vmi
    if not ready then pure tt else (do
      let endpoint = get_open_search_http_endpoint config vmi
      create_ism_policies diff_states diff_templates serialize config endpoint
          vmi.spec.opensearch.policies
      cleanup_policies config endpoint vmi.spec.opensearch.policies))
