-- ===== src/Dashboards.antt =====
-- The client of OpenSearch Dashboards: pkg/opensearch_dashboards. The loop over the pages takes a
-- number of rounds; `none` is a loop that is not left after them.
pub mod Paging
pub mod Titles
use verrazzano_monitoring_op.Prelude.{
  ℕ, zero, suc, ◌+◌, ◌-◌, ◌*◌, ◌/◌, ◌%◌, ◌≤◌, ◌<◌, String, ◌<>◌, ◌≡◌, refl, sym, ap, ◌∙◌, ◌≢◌, ◌↔◌,
  ◌⊎◌, inl, inr, Bool, true, false, not, ◌&&◌, ◌||◌, Option, none, some, List, [], ◌∷◌, ◌++◌, map,
  Memᴰ, append_assoc, append-nil, arith, eq_iff, ltb, leb, ◌==◌, ◌=ₜ◌, if◌then◌else◌, Bool-cases,
  Option-cases, length, get_elem?, get_or, take, All, any, all, select, any_of_mem, any_witness,
  mem_of_mem-select, mem-select,
}
use verrazzano_monitoring_op.Prelude.Int.{
  ℤ, pos, negsuc, pos_part, neg_part, sub_ℕ, ◌+ℤ◌, ltb_ℤ, leb_ℤ, eqb_ℤ, quot, add32, add64, wrap64,
  wrap32,
}
use verrazzano_monitoring_op.Prelude.Io.{
  Error, Result, ok, err, panic, Io, pure, raise, crash, lift, settle, attempt, call, continue,
  ◌>>=◌, ◌>>◌,
}
use verrazzano_monitoring_op.Prelude.Text.{digits}
use verrazzano_monitoring_op.Names.{get_meta_name}
use verrazzano_monitoring_op.Server.{
  Config, Client, Call, http, Reply, ask, check_error, request, request_json,
}
use verrazzano_monitoring_op.SavedObject.{SavedObject, SavedObjectType}
use verrazzano_monitoring_op.Patterns.{construct_updated_pattern}
use verrazzano_monitoring_op.Migration.{wrapped, relabel}
use verrazzano_monitoring_op.Vmi.{Vmi}

unfoldable pub get_open_search_dashboards_http_endpoint : Config → Vmi → String
unfolding get_meta_name
get_open_search_dashboards_http_endpoint config vmo =
    if config.dashboards_http_endpoint =ₜ ""
    then "http://"
      <> get_meta_name vmo.name "osd"
      <> "."
      <> vmo.namespace
      <> ".svc.cluster.local"
      <> ":5601"
    else config.dashboards_http_endpoint

unfoldable pub patterns_url : String → ℕ → String → ℕ → String
unfolding digits
patterns_url endpoint per_page search_query page =
    if search_query =ₜ ""
    then endpoint
      <> "/api/saved_objects/_find?type=index-pattern&fields=title&per_page="
      <> digits per_page
      <> "&page="
      <> digits page
    else endpoint
      <> "/api/saved_objects/_find?search="
      <> search_query
      <> "&type=index-pattern&fields=title&per_page="
      <> digits per_page
      <> "&page="
      <> digits page

unfoldable pub pages_loop :
    ℕ → Config → String → ℕ → String → ℕ → List SavedObject → Client (Option (List SavedObject))
unfolding request patterns_url relabel
pages_loop zero config endpoint per_page search_query page saved_objects = pure none
pages_loop (suc rounds) config endpoint per_page search_query page saved_objects = do
  reply ←
      request config "GET" (patterns_url endpoint per_page search_query page) ""
        "got code when querying index patterns"
  wrapped "failed to decode index pattern response body" (check_error reply.decode_error)
  let objects = saved_objects ++ reply.saved_objects
  if leb_ℤ reply.total (pos (length objects))
      then pure (some objects)
      else pages_loop rounds config endpoint per_page search_query (page + 1) objects

unfoldable pub get_patterns : ℕ → Config → String → ℕ → String → Client (Option (List SavedObject))
unfolding pages_loop
get_patterns rounds config endpoint per_page search_query =
    pages_loop rounds config endpoint per_page search_query 1 []

-- what follows the loop
abbrev pub when_done : {A B : Type 0} → (A → Client B) → Option A → Client (Option B)
when_done f none = pure none
when_done f (some a) = f a >>= λ b. pure (some b)

unfoldable pub create_index_pattern_payload : String → String
create_index_pattern_payload index_pattern =
    "{\"attributes\":{\"title\":\"" <> index_pattern <> "\"}}"

abbrev pub object_url : String → String → String
object_url endpoint id = endpoint <> "/api/saved_objects/index-pattern/" <> id

unfoldable pub execute_update : Config → String → String → String → Client (Unit {0})
unfolding create_index_pattern_payload relabel ask
execute_update config endpoint id updated_pattern = do
  check_error (config.new_request_error (object_url endpoint id))
  reply ←
      wrapped "failed to get index patterns from OpenSearch dashboards"
        (ask (http "PUT" (object_url endpoint id) (create_index_pattern_payload updated_pattern)))
  if not (reply.status == 200) then raise "got status code when getting index patterns" else pure tt

unfoldable pub delete_index_pattern : Config → String → String → Client (Unit {0})
unfolding relabel ask
delete_index_pattern config endpoint id = do
  check_error (config.new_request_error (object_url endpoint id))
  reply ←
      wrapped "failed to delete index patterns from OpenSearch dashboards"
        (ask (http "DELETE" (object_url endpoint id) ""))
  if not (reply.status == 200)
      then raise "got status code when deleting index patterns"
      else pure tt

-- `getSavedObjectMap`, of which only the keys matter
unfoldable pub titles_of : List SavedObject → List String
titles_of [] = []
titles_of (object ∷ objects) = object.title ∷ titles_of objects

-- one round of the loop, on the title that `construct_updated_pattern` gives, and `again` for the rounds behind it
unfoldable pub update_object :
    Config
    → String
    → List String
    → SavedObject
    → String
    → (List String → Client (Unit {0}))
    → Client (Unit {0})
unfolding execute_update delete_index_pattern any relabel
update_object config endpoint titles object updated_pattern again =
    if updated_pattern =ₜ "" || object.title =ₜ updated_pattern
    then again titles
    else if any titles (λ title. title =ₜ updated_pattern)
    then (wrapped "failed to delete index pattern" (delete_index_pattern config endpoint object.id)
        >> again titles)
    else (wrapped "failed to updated index pattern"
          (execute_update config endpoint object.id updated_pattern)
        >> again (updated_pattern ∷ titles))

-- `construct` is `constructUpdatedPattern`, and `titles` are the keys of the map
module _ (construct : String → String) where
  unfoldable pub update_objects :
      Config → String → List String → List SavedObject → Client (Unit {0})
  unfolding update_object
  update_objects config endpoint titles [] = pure tt
  update_objects config endpoint titles (object ∷ objects) =
      update_object config endpoint titles object (construct object.title)
        (λ titles'. update_objects config endpoint titles' objects)

  unfoldable pub update_patterns_internal : ℕ → Config → String → Client (Option (Unit {0}))
  unfolding get_patterns update_objects titles_of
  update_patterns_internal rounds config endpoint =
      get_patterns rounds config endpoint 100 ""
      >>= when_done (λ objects. update_objects config endpoint (titles_of objects) objects)

-- the parameters of `constructUpdatedPattern`
module _ (quote_meta : String → String) (match : String → String → Bool)
    (namespaces_value stream_value : String) where
  abbrev construct_title : String → String
  construct_title = construct_updated_pattern quote_meta match namespaces_value stream_value

  unfoldable pub update_patterns : ℕ → Config → Vmi → Client (Option (Unit {0}))
  unfolding update_patterns_internal get_open_search_dashboards_http_endpoint relabel
      construct_updated_pattern
  update_patterns rounds config vmi =
      if not vmi.spec.opensearch_dashboards.enabled
      then pure (some tt)
      else wrapped "failed to update index patterns" (
          update_patterns_internal construct_title rounds config
            (get_open_search_dashboards_http_endpoint config vmi))

abbrev pub default_index_patterns : List String
default_index_patterns = "verrazzano-system" ∷ "verrazzano-application*" ∷ []

unfoldable pub is_default_index_pattern : String → Bool
unfolding any
is_default_index_pattern index_pattern = any default_index_patterns (λ p. p =ₜ index_pattern)

-- the titles that are default patterns
existing_defaults : List SavedObject → List String
unfolding is_default_index_pattern
existing_defaults [] = []
existing_defaults (object ∷ objects) =
    (if is_default_index_pattern object.title then object.title ∷ [] else [])
    ++ existing_defaults objects

unfoldable pub get_default_index_patterns :
    ℕ → Config → String → ℕ → String → Client (Option (List String))
unfolding get_patterns existing_defaults
get_default_index_patterns rounds config endpoint per_page search_query =
    get_patterns rounds config endpoint per_page search_query
    >>= when_done (λ objects. pure (existing_defaults objects))

-- the payloads for the patterns that are missing
unfoldable pub missing_payloads : List String → List String → List SavedObjectType
unfolding any
missing_payloads existing [] = []
missing_payloads existing (p ∷ patterns) =
    let rest = missing_payloads existing patterns in
    if any existing (λ e. e =ₜ p)
    then rest
    else record { type = "index-pattern"; title = p; time_field_name = "@timestamp" } ∷ rest

module _ (serialize : List SavedObjectType → Result String) where
  unfoldable pub create_index_patterns : Config → List SavedObjectType → String → Client (Unit {0})
  unfolding relabel ask
  create_index_patterns config payloads endpoint = do
    body ← lift (serialize payloads)
    check_error (config.new_request_error (endpoint <> "/api/saved_objects/_bulk_create"))
    reply ←
        wrapped "failed to post index patterns in OpenSearch dashboards"
          (ask (http "POST" (endpoint <> "/api/saved_objects/_bulk_create") body))
    if not (reply.status == 200)
        then raise "post status code when creating index patterns"
        else pure tt

  create_missing : Config → String → List SavedObjectType → Client (Unit {0})
  unfolding create_index_patterns
  create_missing config endpoint [] = pure tt
  create_missing config endpoint (p ∷ payloads) =
      create_index_patterns config (p ∷ payloads) endpoint

  -- `*` is escaped in the query
  unfoldable pub create_default_index_patterns : ℕ → Config → String → Client (Option (Unit {0}))
  unfolding get_default_index_patterns create_missing missing_payloads
  create_default_index_patterns rounds config endpoint =
      get_default_index_patterns rounds config endpoint 50
        "verrazzano-system+or+verrazzano-application\\*"
      >>= when_done (λ existing.
        create_missing config endpoint (missing_payloads existing default_index_patterns))
