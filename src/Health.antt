-- ===== src/Health.antt =====
-- pkg/opensearch/health.go and the conditions of pkg/opensearch/opensearch.go that use it.
pub mod Costs
use verrazzano_monitoring_op.Prelude.{
  ℕ, String, ◌<>◌, Bool, true, false, not, ◌&&◌, List, [], ◌∷◌, ◌++◌, ltb, ◌=ₜ◌, if◌then◌else◌,
  length,
}
use verrazzano_monitoring_op.Prelude.Int.{pos, ltb_ℤ, eqb_ℤ}
use verrazzano_monitoring_op.Prelude.Io.{
  Result, ok, err, panic, pure, raise, crash, lift, attempt, ◌>>=◌,
}
use verrazzano_monitoring_op.Vmi.{Vmi}
use verrazzano_monitoring_op.Names.{get_meta_name}
use verrazzano_monitoring_op.Nodes.{get_node_count, data_nodes}
use verrazzano_monitoring_op.Kube.{Labels, StatefulSet}
use verrazzano_monitoring_op.Plan.{elasticsearch_master}
use verrazzano_monitoring_op.Server.{
  Config, Client, list_stateful_sets, Node, Reply, request_json, ask,
}

abbrev pub health_green : String
health_green = "green"

abbrev pub min_data_nodes_for_resize : ℕ
min_data_nodes_for_resize = 2

unfoldable pub get_open_search_http_endpoint : Config → Vmi → String
unfolding get_meta_name
get_open_search_http_endpoint config vmo =
    if config.master_http_endpoint =ₜ ""
    then "http://"
      <> get_meta_name vmo.name elasticsearch_master
      <> "-http."
      <> vmo.namespace
      <> ".svc.cluster.local"
      <> ":9200"
    else config.master_http_endpoint

unfoldable pub get_open_search_cluster_health : Config → Vmi → Client String
unfolding get_open_search_http_endpoint request_json
get_open_search_cluster_health config vmo = do
  let url = get_open_search_http_endpoint config vmo <> "/_cluster/health"
  reply ← request_json config "GET" url "" "failed to get cluster health"
  pure reply.health

-- the loop that marshals each node and decodes it again
decode_nodes : List (Result Node) → List Node → Client (List Node)
decode_nodes [] nodes = pure nodes
decode_nodes (r ∷ rs) nodes = do node ← lift r; decode_nodes rs (nodes ++ node ∷ [])

unfoldable pub get_open_search_nodes : Config → Vmi → Client (List Node)
unfolding get_open_search_http_endpoint request_json decode_nodes
get_open_search_nodes config vmo = do
  let url = get_open_search_http_endpoint config vmo <> "/_nodes/settings"
  reply ← request_json config "GET" url "" "failed to get node settings"
  decode_nodes reply.nodes []

-- the loop over the nodes' versions
check_versions : String → List Node → Client (Unit {0})
check_versions target [] = pure tt
check_versions target (node ∷ nodes) =
    let rest = check_versions target nodes in
    if node.version =ₜ target then rest else raise "Not all OpenSearch nodes are upgrade to"

unfoldable pub check_nodes : Config → Vmi → Bool → Bool → List Node → Client (Unit {0})
unfolding check_versions
check_nodes config vmo check_node_count wait_for_version nodes =
    if check_node_count && ltb_ℤ (pos (length nodes)) (get_node_count vmo).replicas
    then raise "Expected more OpenSearch nodes"
    else if wait_for_version
    then check_versions config.es_wait_target_version nodes
    else pure tt

unfoldable pub opensearch_health : Config → Vmi → Bool → Bool → Client (Unit {0})
unfolding check_nodes get_open_search_cluster_health get_open_search_nodes
opensearch_health config vmo check_node_count wait_for_version =
    if not vmo.spec.opensearch.enabled then pure tt else (do
      status ← get_open_search_cluster_health config vmo
      if not (status =ₜ health_green) then raise "OpenSearch health is not green" else (do
        nodes ← get_open_search_nodes config vmo
        check_nodes config vmo check_node_count wait_for_version nodes))

unfoldable pub is_data_resizable : Config → Vmi → Client (Unit {0})
unfolding opensearch_health
is_data_resizable config vmo =
    if ltb (length (data_nodes vmo)) min_data_nodes_for_resize
    then raise "cannot resize OpenSearch with less than 2 data nodes"
    else opensearch_health config vmo true true

unfoldable pub is_updated : Config → Vmi → Client (Unit {0})
unfolding opensearch_health
is_updated config vmo = opensearch_health config vmo true true

unfoldable pub is_green : Config → Vmi → Client (Unit {0})
unfolding opensearch_health
is_green config vmo = opensearch_health config vmo false false

abbrev pub open_search_selector : Vmi → Labels
open_search_selector vmi =
    ("vmo.v1.verrazzano.io", vmi.name) ∷ ("verrazzano-component", "opensearch") ∷ []

-- exactly one stateful set, all of whose pods are ready
one_ready : List StatefulSet → Bool
one_ready [] = false
one_ready (sts ∷ []) = eqb_ℤ sts.ready_replicas sts.status_replicas
one_ready (sts ∷ other ∷ list) = false

ready_answer : Result Reply → Client Bool
unfolding one_ready
ready_answer (ok reply) = pure (one_ready reply.stateful_sets)
ready_answer (err e) = pure false
ready_answer panic = crash

unfoldable pub is_open_search_ready : Vmi → Client Bool
unfolding ready_answer ask
is_open_search_ready vmi = do
  answer ← attempt (ask (list_stateful_sets vmi.namespace (open_search_selector vmi)))
  ready_answer answer
