-- ===== src/Health/Costs.antt =====
-- The health checks of pkg/opensearch/health.go make HTTP requests only.
use verrazzano_monitoring_op.Prelude.{ℕ, ◌≤◌, String, Bool, true, false, List, [], ◌∷◌, ◌++◌}
use verrazzano_monitoring_op.Prelude.Io.{Result}
use verrazzano_monitoring_op.Prelude.Io.Cost.{
  AtMost, AtMost-pure, AtMost-raise, AtMost-lift, AtMost-if, AtMost-bind_free,
}
use verrazzano_monitoring_op.Server.{Config, Call, http, Node}
use verrazzano_monitoring_op.Server.Costs.{AtMost-request_json}
use verrazzano_monitoring_op.Vmi.{Vmi}
use verrazzano_monitoring_op.Health.{
  check_nodes, get_open_search_cluster_health, get_open_search_nodes, opensearch_health, is_green,
  is_updated, decode_nodes, check_versions,
}

module _ {weight : Call → ℕ}
    (free : (method url body : String) → weight (http method url body) ≤ 0) where
  AtMost-decode_nodes :
      (rs : List (Result Node)) (nodes : List Node) → AtMost weight 0 (decode_nodes rs nodes)
  unfolding decode_nodes
  AtMost-decode_nodes [] nodes = AtMost-pure 0 nodes
  AtMost-decode_nodes (r ∷ rs) nodes =
      AtMost-bind_free 0 _ _ (AtMost-lift 0 r) (λ node. AtMost-decode_nodes rs (nodes ++ node ∷ []))

  AtMost-check_versions :
      (target : String) (nodes : List Node) → AtMost weight 0 (check_versions target nodes)
  unfolding check_versions
  AtMost-check_versions target [] = AtMost-pure 0 tt
  AtMost-check_versions target (node ∷ nodes) =
      AtMost-if 0 _ _ _ (AtMost-check_versions target nodes) (AtMost-raise 0 _)

  AtMost-check_nodes :
      (config : Config) (vmo : Vmi) (count wait : Bool) (nodes : List Node)
      → AtMost weight 0 (check_nodes config vmo count wait nodes)
  unfolding check_nodes
  AtMost-check_nodes config vmo count wait nodes = AtMost-if 0 _ _ _ (AtMost-raise 0 _) (
      AtMost-if 0 _ _ _ (AtMost-check_versions config.es_wait_target_version nodes)
        (AtMost-pure 0 tt))

  AtMost-nodes : (config : Config) (vmo : Vmi) → AtMost weight 0 (get_open_search_nodes config vmo)
  unfolding get_open_search_nodes
  AtMost-nodes config vmo =
      AtMost-bind_free 0 _ _ (AtMost-request_json config "GET" _ "" _ (free _ _ _))
        (λ reply. AtMost-decode_nodes reply.nodes [])

  AtMost-cluster_health :
      (config : Config) (vmo : Vmi) → AtMost weight 0 (get_open_search_cluster_health config vmo)
  unfolding get_open_search_cluster_health
  AtMost-cluster_health config vmo =
      AtMost-bind_free 0 _ _ (AtMost-request_json config "GET" _ "" _ (free _ _ _))
        (λ reply. AtMost-pure 0 reply.health)

  pub AtMost-opensearch_health :
      (config : Config) (vmo : Vmi) (count wait : Bool)
      → AtMost weight 0 (opensearch_health config vmo count wait)
  unfolding opensearch_health
  AtMost-opensearch_health config vmo count wait = AtMost-if 0 _ _ _ (AtMost-pure 0 tt) (
      AtMost-bind_free 0 _ _ (AtMost-cluster_health config vmo) (λ status.
        AtMost-if 0 _ _ _ (AtMost-raise 0 _) (
          AtMost-bind_free 0 _ _ (AtMost-nodes config vmo)
            (λ nodes. AtMost-check_nodes config vmo count wait nodes))))

  pub AtMost-is_green : (config : Config) (vmo : Vmi) → AtMost weight 0 (is_green config vmo)
  unfolding is_green
  AtMost-is_green config vmo = AtMost-opensearch_health config vmo false false

  pub AtMost-is_updated : (config : Config) (vmo : Vmi) → AtMost weight 0 (is_updated config vmo)
  unfolding is_updated
  AtMost-is_updated config vmo = AtMost-opensearch_health config vmo true true
