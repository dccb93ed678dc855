-- ===== src/Migration.antt =====
-- The migration of old indices to data streams: pkg/opensearch/opensearch_upgrade.go, with
-- `SystemNamespaces` and `DataStreamName` of pkg/config/reindex_config.go. Texts are ASCII.
pub mod Kept
pub mod Failed
use verrazzano_monitoring_op.Prelude.{
  ◌^◌, ℕ, zero, suc, ◌+◌, ◌-◌, ◌*◌, ◌/◌, ◌%◌, ◌≤◌, ◌<◌, String, ◌<>◌, ◌≡◌, refl, sym, ap, ◌∙◌, ◌≢◌,
  ◌↔◌, ◌⊎◌, inl, inr, Bool, true, false, not, ◌&&◌, ◌||◌, Option, none, some, List, [], ◌∷◌, ◌++◌,
  map, Memᴰ, append_assoc, append-nil, arith, eq_iff, ltb, leb, ◌==◌, ◌=ₜ◌, if◌then◌else◌,
  Bool-cases, Option-cases, length, get_elem?, get_or, take, All, any, all, select, any_of_mem,
  any_witness, mem_of_mem-select, mem-select,
}
use verrazzano_monitoring_op.Prelude.Int.{
  ℤ, pos, negsuc, pos_part, neg_part, sub_ℕ, ◌+ℤ◌, ltb_ℤ, leb_ℤ, eqb_ℤ, quot, add32, add64, wrap64,
  wrap32,
}
use verrazzano_monitoring_op.Prelude.Io.{
  Error, Result, ok, err, panic, Io, pure, raise, crash, lift, settle, attempt, call, continue,
  ◌>>=◌, ◌>>◌,
}
use Prim.Native.Char.{Char, code}
use verrazzano_monitoring_op.Prelude.Text.{digits, parse_uint, split, has_prefix, contains}
use verrazzano_monitoring_op.Retention.{get_retention_age_in_seconds}
use verrazzano_monitoring_op.Server.{
  Config, Client, Call, http, Reply, ask, check_error, request, request_json,
}
use verrazzano_monitoring_op.Vmi.{Vmi, IndexManagementPolicy}

-- the value of the environment variable, or the default
unfoldable pub system_namespaces : String → List String
system_namespaces value =
    if value =ₜ ""
    then "kube-system" ∷ "verrazzano-system" ∷ "istio-system" ∷ "keycloak" ∷ "metallb-system"
      ∷ "default" ∷ "cert-manager" ∷ "local-path-storage" ∷ "rancher-operator-system"
      ∷ "fleet-system" ∷ "ingress-nginx" ∷ "cattle-system" ∷ "verrazzano-install" ∷ "monitoring"
      ∷ []
    else split value ","

unfoldable pub data_stream_name : String → String
data_stream_name value = if value =ₜ "" then "verrazzano-system" else value

-- `strings.TrimPrefix` where the text has the prefix
strip : String → String → Option String
strip s String.[] = some s
strip String.[] (String.◌∷◌ c p) = none
strip (String.◌∷◌ d s) (String.◌∷◌ c p) =
    let rest = strip s p in if code d == code c then rest else none

-- `strings.Replace(s, from, to, 1)`: `here` is what is left of `s` behind `from`
replaced : String → Option String → String → String
replaced to (some left) otherwise = to <> left
replaced to none otherwise = otherwise

unfoldable pub replace_first : String → String → String → String
unfolding strip replaced
replace_first String.[] from to = replaced to (strip "" from) ""
replace_first (String.◌∷◌ c s) from to =
    replaced to (strip (String.◌∷◌ c s) from) (String.◌∷◌ c (replace_first s from to))

-- what the loop over the system namespaces appends
of_namespaces : String → List String → List String
of_namespaces index [] = []
of_namespaces index (namespace ∷ namespaces) =
    (if index =ₜ "verrazzano-namespace-" <> namespace then index ∷ [] else [])
    ++ of_namespaces index namespaces

unfoldable pub system_index : List String → String → List String
unfolding of_namespaces
system_index namespaces index =
    (if has_prefix index "verrazzano-namespace-" then of_namespaces index namespaces else [])
    ++ (if contains index "verrazzano-systemd-journal" then index ∷ [] else [])
    ++ (if has_prefix index "verrazzano-logstash-" then index ∷ [] else [])

unfoldable pub get_system_indices : List String → List String → List String
unfolding system_index
get_system_indices namespaces [] = []
get_system_indices namespaces (index ∷ indices) =
    system_index namespaces index ++ get_system_indices namespaces indices

unfoldable pub is_application_index : List String → String → Bool
unfolding any
is_application_index namespaces index =
    has_prefix index "verrazzano-namespace-"
    && not (any namespaces (λ namespace. index =ₜ "verrazzano-namespace-" <> namespace))

unfoldable pub get_application_indices : List String → List String → List String
unfolding is_application_index select
get_application_indices namespaces indices = select (is_application_index namespaces) indices

pub record Query : Type 0 where
  pub greater_than_equal : String
  pub less_than : String

pub record ReindexPayload : Type 0 where
  pub conflicts : String
  pub source_index : String
  pub query : Option Query
  pub dest_index : String
  pub op_type : String

unfoldable pub create_reindex_payload : String → String → String → ReindexPayload
create_reindex_payload source dest retention_seconds = record {
  conflicts = "proceed";
  source_index = source;
  query =
      if retention_seconds =ₜ ""
      then none
      else some (record { greater_than_equal = "now-" <> retention_seconds; less_than = "now/s" });
  dest_index = dest;
  op_type = "create";
}

-- an error that gets the text `e` in front
unfoldable pub relabel {ℓ} : {A : Type ℓ} → Error → Result A → Result A
relabel e (ok a) = ok a
relabel e (err inner) = err e
relabel e panic = panic

abbrev pub wrapped {ℓ} : {C R A : Type ℓ} → Error → Io C R A → Io C R A
wrapped e m env tr = (relabel e (m env tr).0, (m env tr).1)

unfoldable pub data_stream_exists : Config → String → String → Client Bool
unfolding ask
data_stream_exists config endpoint data_stream = do
  check_error (config.new_request_error (endpoint <> "/_data_stream/" <> data_stream))
  reply ← ask (http "GET" (endpoint <> "/_data_stream/" <> data_stream) "")
  if reply.status == 404
      then pure false
      else if not (reply.status == 200)
      then raise "got code when checking for data stream"
      else pure true

-- the keys of the answer, in the order of the loop over them
unfoldable pub get_indices : Config → String → Client (List String)
unfolding request relabel
get_indices config endpoint = do
  reply ←
      request config "GET" (endpoint <> "/_aliases") ""
        "got status code when getting the indices in OpenSearch"
  wrapped "failed to unmarshall indices response" (check_error reply.decode_error)
  pure reply.indices

unfoldable pub delete_index : Config → String → String → Client (Unit {0})
unfolding relabel ask
delete_index config endpoint index_name = do
  check_error (config.new_request_error (endpoint <> "/" <> index_name))
  reply ← wrapped "failed to delete index" (ask (http "DELETE" (endpoint <> "/" <> index_name) ""))
  if not (reply.status == 200)
      then raise "got status code when deleting the indice in OpenSearch"
      else pure tt

unfoldable pub stream_of : String → Bool → String → String
unfolding data_stream_name replace_first
stream_of stream_value true index = data_stream_name stream_value
stream_of stream_value false index =
    replace_first index "verrazzano-namespace" "verrazzano-application"

-- `serialize` is `json.Marshal`; the two values are those of the environment variables
module _ (quote_meta : String → String) (match : String → String → Bool)
    (serialize : ReindexPayload → Result String) where
  unfoldable pub reindex_to_data_stream :
      Config → String → String → String → String → Client (Unit {0})
  unfolding create_reindex_payload request
  reindex_to_data_stream config endpoint source dest retention_seconds = do
    payload ← lift (serialize (create_reindex_payload source dest retention_seconds))
    request config "POST" (endpoint <> "/_reindex") payload "got status code when reindexing"
    pure tt

  unfoldable pub reindex_and_delete_indices :
      Config → Vmi → String → String → List String → Bool → Client (Unit {0})
  unfolding stream_of get_retention_age_in_seconds reindex_to_data_stream delete_index
  reindex_and_delete_indices config vmi stream_value endpoint [] is_system_index = pure tt
  reindex_and_delete_indices config vmi stream_value endpoint (index ∷ indices) is_system_index = do
    let data_stream = stream_of stream_value is_system_index index
    seconds ← lift (get_retention_age_in_seconds quote_meta match vmi data_stream)
    reindex_to_data_stream config endpoint index data_stream seconds
    delete_index config endpoint index
    reindex_and_delete_indices config vmi stream_value endpoint indices is_system_index

  unfoldable pub migrate_indices_to_data_streams :
      Config → Vmi → String → String → String → Client (Unit {0})
  unfolding get_indices system_namespaces get_system_indices get_application_indices
      reindex_and_delete_indices
  migrate_indices_to_data_streams config vmi namespaces_value stream_value endpoint = do
    indices ← wrapped "failed to retrieve OpenSearch index list" (get_indices config endpoint)
    wrapped "failed to migrate the Verrazzano system indices to data streams" (
        reindex_and_delete_indices config vmi stream_value endpoint
          (get_system_indices (system_namespaces namespaces_value) indices) true)
    wrapped "failed to migrate the Verrazzano application indices to data streams" (
        reindex_and_delete_indices config vmi stream_value endpoint
          (get_application_indices (system_namespaces namespaces_value) indices) false)
