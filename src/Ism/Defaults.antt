-- ===== src/Ism/Defaults.antt =====
-- The default policies: `createOrUpdateDefaultISMPolicy` and what it calls in pkg/opensearch/ism.go,
-- and SyncDefaultISMPolicy, DeleteDefaultISMPolicy and SetAutoExpandIndices of
-- pkg/opensearch/opensearch.go. `names` are the entries of the map of the default policies in the
-- order in which a loop meets them, and `load` reads and decodes an embedded file.
use verrazzano_monitoring_op.Prelude.{
  String, ◌<>◌, Bool, true, false, not, ◌&&◌, ◌||◌, Option, none, some, List, [], ◌∷◌, ◌++◌, ◌==◌,
  ◌=ₜ◌, if◌then◌else◌, any,
}
use verrazzano_monitoring_op.Prelude.Int.{eqb_ℤ}
use verrazzano_monitoring_op.Prelude.Io.{
  Error, Result, ok, err, panic, pure, raise, crash, lift, attempt, ◌>>=◌, ◌>>◌,
}
use verrazzano_monitoring_op.Health.{get_open_search_http_endpoint, is_open_search_ready}
use verrazzano_monitoring_op.Nodes.{is_single_node_cluster}
use verrazzano_monitoring_op.Migration.{wrapped, relabel}
use verrazzano_monitoring_op.Policy.{IsmPolicy, PolicyState, IsmTemplate}
use verrazzano_monitoring_op.Server.{Config, Client, http, ask, check_error, request, request_json}
use verrazzano_monitoring_op.Ism.{
  policy_url, get_policy_by_name, put_updated_policy, get_all_policies,
}
use verrazzano_monitoring_op.Vmi.{Vmi}

abbrev or_panic : {A : Type 0} → Option A → Client A
or_panic none = crash
or_panic (some a) = pure a

-- `policy.Policy.ISMTemplate[0]`
first_template : List IsmTemplate → Client IsmTemplate
first_template [] = crash
first_template (t ∷ ts) = pure t

unfoldable pub is_item_already_exists : List String → List String → Bool
unfolding any
is_item_already_exists all_patterns sub_patterns =
    any all_patterns (λ al. any sub_patterns (λ sl. al =ₜ sl))

is_custom_policy : IsmPolicy → String → IsmPolicy → Client Bool
unfolding first_template is_item_already_exists
is_custom_policy search_policy search_name policy = do
  id ← or_panic policy.id
  if id =ₜ search_name then pure false else (do
    t ← first_template policy.policy.ism_template
    s ← first_template search_policy.policy.ism_template
    pure (eqb_ℤ t.priority s.priority && is_item_already_exists t.index_patterns s.index_patterns))

unfoldable pub is_custom_policy_exists : IsmPolicy → String → List IsmPolicy → Client Bool
unfolding is_custom_policy
is_custom_policy_exists search_policy search_name [] = pure false
is_custom_policy_exists search_policy search_name (policy ∷ policies) =
    is_custom_policy search_policy search_name policy >>= λ b.
    if b then pure true else is_custom_policy_exists search_policy search_name policies

-- the current write index of each data stream, the last of its indices
last_index : List String → List String
last_index [] = []
last_index (x ∷ []) = x ∷ []
last_index (x ∷ y ∷ xs) = last_index (y ∷ xs)

unfoldable pub write_indices : List (List String) → List String
unfolding last_index
write_indices [] = []
write_indices (indices ∷ streams) = last_index indices ++ write_indices streams

unfoldable pub get_write_index_for_data_stream : Config → String → String → Client (List String)
unfolding write_indices ask
get_write_index_for_data_stream config endpoint pattern = do
  check_error (config.new_request_error (endpoint <> "/_data_stream/" <> pattern))
  reply ← ask (http "GET" (endpoint <> "/_data_stream/" <> pattern) "")
  if reply.status == 404
      then pure []
      else if not (reply.status == 200)
      then raise "got status code when fecthing data streams"
      else (check_error reply.decode_error >> pure (write_indices reply.data_streams))

-- the entry of the index in the answer: none, one without a policy, or one with its policy
attached : String → Option (Option String) → Bool
attached policy_id none = false
attached policy_id (some none) = true
attached policy_id (some (some other)) = other =ₜ policy_id

unfoldable pub should_add_or_remove_default_policy : Config → String → String → String → Client Bool
unfolding attached request_json
should_add_or_remove_default_policy config endpoint index policy_id = do
  reply ←
      request_json config "GET" (endpoint <> "/_plugins/_ism/explain/" <> index) ""
        "failed to get attached policy status for index"
  found ← lift reply.explained
  pure (attached policy_id found)

unfoldable pub add_policy_for_index : Config → String → String → String → Client (Unit {0})
unfolding request
add_policy_for_index config endpoint index policy_id =
    request config "POST" (endpoint <> "/_plugins/_ism/add/" <> index)
      ("{\"policy_id\": \"" <> policy_id <> "\"}") "got status code when adding policy for index"
    >> pure tt

unfoldable pub remove_policy_for_index : Config → String → String → Client (Unit {0})
unfolding request
remove_policy_for_index config endpoint index =
    request config "POST" (endpoint <> "/_plugins/_ism/remove/" <> index) ""
      "got status code when removing policy from index"
    >> pure tt

attach_to_index : Config → String → String → String → Bool → Client (Unit {0})
unfolding remove_policy_for_index add_policy_for_index relabel
attach_to_index config endpoint policy_name index false = pure tt
attach_to_index config endpoint policy_name index true = do
  wrapped "failed to remove policy for index" (remove_policy_for_index config endpoint index)
  wrapped "failed to add default policy for index"
      (add_policy_for_index config endpoint index policy_name)

unfoldable pub attach_to_indices : Config → String → String → List String → Client (Unit {0})
unfolding attach_to_index should_add_or_remove_default_policy
attach_to_indices config endpoint policy_name [] = pure tt
attach_to_indices config endpoint policy_name (index ∷ indices) = do
  b ← should_add_or_remove_default_policy config endpoint index policy_name
  attach_to_index config endpoint policy_name index b
  attach_to_indices config endpoint policy_name indices

attach_to_patterns : Config → String → String → List String → Client (Unit {0})
unfolding attach_to_indices get_write_index_for_data_stream relabel
attach_to_patterns config endpoint policy_name [] = pure tt
attach_to_patterns config endpoint policy_name (pattern ∷ patterns) = do
  indices ←
      wrapped "failed to get the write index"
        (get_write_index_for_data_stream config endpoint pattern)
  attach_to_indices config endpoint policy_name indices
  attach_to_patterns config endpoint policy_name patterns

unfoldable pub add_default_policy_to_data_stream :
    Config → String → String → List IsmTemplate → Client (Unit {0})
unfolding attach_to_patterns
add_default_policy_to_data_stream config endpoint policy_name [] =
    raise "no index template defined in policy"
add_default_policy_to_data_stream config endpoint policy_name (t ∷ ts) =
    attach_to_patterns config endpoint policy_name t.index_patterns

-- the value that the goroutine sent, which is received, and a further one, which never is
send : Option Error → Option Error → (Option Error → Client (Option Error)) → Client (Option Error)
send sent none go_on = go_on sent
send none (some e) go_on = go_on (some e)
send (some first) (some e) go_on = pure (some first)

error_of : {A : Type 0} → Result A → Client (Option Error)
error_of (ok a) = pure none
error_of (err e) = pure (some e)
error_of panic = crash

value_or : {A : Type 0} → A → Result A → A
value_or d (ok a) = a
value_or d (err e) = d
value_or d panic = d

-- the error of `deletePolicy` that `DeleteDefaultISMPolicy` sends
delete_default_policy : Config → String → String → Client (Option Error)
unfolding error_of ask
delete_default_policy config endpoint name = do
  answer ← attempt (do
    check_error (config.new_request_error (policy_url endpoint name))
    reply ← ask (http "DELETE" (policy_url endpoint name) "")
    if reply.status == 200 || reply.status == 404
        then pure tt
        else raise "got another status code when deleting policy")
  error_of answer

default_pattern : String → String
default_pattern policy_name =
    if policy_name =ₜ "vz-system" then "verrazzano-system" else "verrazzano-application-*"

detach_from_index : Config → String → String → Bool → Client (Option Error)
unfolding remove_policy_for_index error_of
detach_from_index config endpoint index false = pure none
detach_from_index config endpoint index true = do
  answer ← attempt (remove_policy_for_index config endpoint index)
  error_of answer

detach_from_indices :
    Config
    → String
    → String
    → Option Error
    → List String
    → (Option Error → Client (Option Error))
    → Client (Option Error)
unfolding should_add_or_remove_default_policy detach_from_index send error_of value_or
detach_from_indices config endpoint policy_name sent [] go_on = go_on sent
detach_from_indices config endpoint policy_name sent (index ∷ indices) go_on = do
  found ← attempt (should_add_or_remove_default_policy config endpoint index policy_name)
  e ← error_of found
  send sent e (λ sent'. detach_from_index config endpoint index (value_or false found) >>= λ e'.
      send sent' e'
        (λ sent''. detach_from_indices config endpoint policy_name sent'' indices go_on))

delete_default_policies : Config → String → Option Error → List String → Client (Option Error)
unfolding delete_default_policy detach_from_indices send error_of value_or default_pattern
    get_write_index_for_data_stream
delete_default_policies config endpoint sent [] = pure sent
delete_default_policies config endpoint sent (policy_name ∷ names) =
    delete_default_policy config endpoint policy_name >>= λ e. send sent e (λ sent'.
      attempt (get_write_index_for_data_stream config endpoint (default_pattern policy_name))
      >>= λ found. error_of found >>= λ e'. send sent' e' (λ sent''.
        detach_from_indices config endpoint policy_name sent'' (value_or [] found)
          (λ s. delete_default_policies config endpoint s names)))

-- the value that is received from the channel
unfoldable pub delete_default_ism_policy : Config → List String → Vmi → Client (Option Error)
unfolding delete_default_policies is_open_search_ready get_open_search_http_endpoint
delete_default_ism_policy config names vmi =
    if not vmi.spec.opensearch.enabled || not vmi.spec.opensearch.disable_default_policy
    then pure none
    else (is_open_search_ready vmi >>= λ ready.
        if not ready
        then pure none
        else delete_default_policies config (get_open_search_http_endpoint config vmi) none names)

abbrev index_settings : String
index_settings =
    "{\"index_patterns\": [\".opendistro*\"],\"priority\": 0,\"template\": {\"settings\": {\"auto_expand_replicas\": \"0-1\"}}}"

unfoldable pub set_auto_expand_indices : Config → Vmi → Client (Unit {0})
unfolding is_single_node_cluster is_open_search_ready get_open_search_http_endpoint request_json
set_auto_expand_indices config vmi =
    if not vmi.spec.opensearch.enabled || not (is_single_node_cluster vmi)
    then pure tt
    else (is_open_search_ready vmi >>= λ ready. if not ready then pure tt else (do
      reply ←
          request_json config "PUT"
            (get_open_search_http_endpoint config vmi <> "/_index_template/ism-plugin-template")
            index_settings "got status code when updating default settings of index"
      if not reply.acknowledged
          then raise "expected acknowldegement for index settings update but did not get"
          else pure tt))

module _ (diff_states : List PolicyState → List PolicyState → String)
    (diff_templates : List IsmTemplate → List IsmTemplate → String)
    (serialize : IsmPolicy → Result String) (load : String → Result IsmPolicy) where
  unfoldable pub update_ism_policy :
      Config → String → String → IsmPolicy → Client (Option IsmPolicy)
  unfolding get_policy_by_name put_updated_policy
  update_ism_policy config endpoint policy_name policy = do
    existing ← get_policy_by_name config (policy_url endpoint policy_name)
    put_updated_policy diff_states diff_templates serialize config endpoint policy_name policy
        existing

  -- the indices get the default policy where it was created or updated
  attach_created :
      Config → String → String → List IsmTemplate → Option IsmPolicy → Client (Unit {0})
  unfolding add_default_policy_to_data_stream
  attach_created config endpoint policy_name templates none = pure tt
  attach_created config endpoint policy_name templates (some created) =
      add_default_policy_to_data_stream config endpoint policy_name templates

  create_default_policy :
      Config → String → String → IsmPolicy → Bool → Client (List (Option IsmPolicy))
  unfolding update_ism_policy attach_created
  create_default_policy config endpoint policy_name policy true = pure []
  create_default_policy config endpoint policy_name policy false = do
    created ← update_ism_policy config endpoint policy_name policy
    attach_created config endpoint policy_name policy.policy.ism_template created
    pure (created ∷ [])

  create_default_policies :
      Config → String → List IsmPolicy → List (String × String) → Client (List (Option IsmPolicy))
  unfolding is_custom_policy_exists create_default_policy
  create_default_policies config endpoint all_policies [] = pure []
  create_default_policies config endpoint all_policies ((policy_name, policy_file) ∷ names) = do
    policy ← lift (load policy_file)
    custom ← is_custom_policy_exists policy policy_name all_policies
    created ← create_default_policy config endpoint policy_name policy custom
    rest ← create_default_policies config endpoint all_policies names
    pure (created ++ rest)

  unfoldable pub create_or_update_default_ism_policy :
      Config → String → List (String × String) → Client (List (Option IsmPolicy))
  unfolding get_all_policies create_default_policies
  create_or_update_default_ism_policy config endpoint names = do
    all_policies ← get_all_policies config endpoint
    create_default_policies config endpoint all_policies names

  unfoldable pub sync_default_ism_policy : Config → List (String × String) → Vmi → Client (Unit {0})
  unfolding create_or_update_default_ism_policy is_open_search_ready get_open_search_http_endpoint
  sync_default_ism_policy config names vmi =
      if not vmi.spec.opensearch.enabled || vmi.spec.opensearch.disable_default_policy
      then pure tt
      else (is_open_search_ready vmi >>= λ ready.
          if not ready
          then pure tt
          else (create_or_update_default_ism_policy config
                (get_open_search_http_endpoint config vmi) names
              >> pure tt))
