-- ===== src/VmoSpec/Settled.antt =====
-- The part of an instance that needs no further defaults (pkg/vmo/vmospec.go).
use verrazzano_monitoring_op.Prelude.{◌<>◌, ◌≡◌, refl, true, false, none, arith, ◌=ₜ◌}
use verrazzano_monitoring_op.Prelude.Int.{pos, eqb_ℤ, wrap32}
use verrazzano_monitoring_op.Server.{Config}
use verrazzano_monitoring_op.VmoSpec.{
  handle_opensearch_dashboards_conversion, handle_opensearch_conversion, set_replicas,
}
use verrazzano_monitoring_op.Vmi.{
  Opensearch, VmiSpec, ElasticsearchNode, NodeRole, master_role, data_role, ingest_role,
}
use verrazzano_monitoring_op.VmoSpec.{is_nil, init_node, set_spec}

pub record NodeSettled (node : ElasticsearchNode) : Type 0 where
  pub named : (node.name =ₜ "") ≡ false
  pub has_role : is_nil node.roles ≡ false

pub record Settled (config : Config) (spec : VmiSpec) : Type 0 where
  pub kibana : spec.kibana ≡ none
  pub elasticsearch : spec.elasticsearch ≡ none
  pub replicas :
      eqb_ℤ spec.opensearch_dashboards.replicas (pos 0) ≡ true
      → wrap32 config.default_simple_component_replicas ≡ spec.opensearch_dashboards.replicas
  pub master : NodeSettled spec.opensearch.master_node
  pub ingest : NodeSettled spec.opensearch.ingest_node
  pub data_group : NodeSettled spec.opensearch.data_node

init_node-NodeSettled :
    (node : ElasticsearchNode) (role : NodeRole)
    → (("es-" <> role) =ₜ "") ≡ false
    → NodeSettled (init_node node role)
unfolding init_node is_nil
init_node-NodeSettled node role h = ground arith

init_node-eq_self :
    (node : ElasticsearchNode) (role : NodeRole) → NodeSettled node → init_node node role ≡ node
unfolding init_node is_nil
init_node-eq_self node role s = rw (s.named, s.has_role) refl

pub set_spec-eq_self :
    (config : Config) (spec : VmiSpec) → Settled config spec → set_spec config spec ≡ spec
unfolding set_spec
set_spec-eq_self config spec s = ground (
  arith,
  init_node-eq_self spec.opensearch.master_node master_role,
  init_node-eq_self spec.opensearch.ingest_node ingest_role,
  init_node-eq_self spec.opensearch.data_node data_role,
)

pub set_spec-Settled : (config : Config) (spec : VmiSpec) → Settled config (set_spec config spec)
unfolding set_spec
set_spec-Settled config spec = record {
  kibana = refl;
  elasticsearch = refl;
  replicas = λ h. ground arith;
  master = init_node-NodeSettled chosen.master_node master_role refl;
  ingest = init_node-NodeSettled chosen.ingest_node ingest_role refl;
  data_group = init_node-NodeSettled chosen.data_node data_role refl;
}
  where
    chosen : Opensearch
    chosen =
        (handle_opensearch_conversion
          (set_replicas config (handle_opensearch_dashboards_conversion spec))).opensearch
