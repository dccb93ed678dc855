-- ===== src/VmoSpec.antt =====
-- The defaults of an instance: pkg/vmo/vmospec.go. The storage elements are updated through pointers that the lists of
-- nodes share, so a change reaches the instance. The secrets that `InitializeVMOSpec` also creates
-- are left out: their errors are logged and not returned.
pub mod Settled
pub mod Again
pub mod Version
pub mod Idempotent
use verrazzano_monitoring_op.Prelude.{
  String, ◌<>◌, Bool, true, false, not, ◌&&◌, Option, none, some, List, [], ◌∷◌, ◌=ₜ◌,
  if◌then◌else◌,
}
use verrazzano_monitoring_op.Prelude.Int.{pos, ltb_ℤ, eqb_ℤ, wrap32}
use verrazzano_monitoring_op.Prelude.Io.{Result, ok, panic}
use verrazzano_monitoring_op.Prelude.Io.Fallible.{◌>>=◌}
use verrazzano_monitoring_op.Prelude.Dict.{insert}
use verrazzano_monitoring_op.Names.{get_meta_name}
use verrazzano_monitoring_op.Nodes.{data_node_matcher}
use verrazzano_monitoring_op.Server.{Config}
use verrazzano_monitoring_op.Storage.{init_storage_element}
use verrazzano_monitoring_op.Vmi.{
  Vmi, VmiSpec, Grafana, Storage, Resources, Plugins, Opensearch, OpensearchDashboards,
  ElasticsearchNode, NodeRole, master_role, data_role, ingest_role,
}

pub is_nil {ℓ} : {A : Type ℓ} → List A → Bool
is_nil [] = true
is_nil (x ∷ xs) = false

-- `reflect.ValueOf(v).IsZero()`
resources_is_zero : Resources → Bool
resources_is_zero r =
    r.limit_cpu =ₜ ""
    && r.limit_memory =ₜ ""
    && r.request_cpu =ₜ ""
    && r.request_memory =ₜ ""
    && r.max_size_disk =ₜ ""
    && r.min_size_disk =ₜ ""

plugins_is_zero : Plugins → Bool
unfolding is_nil
plugins_is_zero p = not p.enabled && is_nil p.install_list

storage_is_zero : Storage → Bool
unfolding is_nil
storage_is_zero s = s.size =ₜ "" && s.availability_domain =ₜ "" && is_nil s.pvc_names

absent {ℓ} : {A : Type ℓ} → Option A → Bool
absent none = true
absent (some a) = false

node_is_zero : ElasticsearchNode → Bool
unfolding resources_is_zero is_nil absent
node_is_zero n =
    n.name =ₜ ""
    && eqb_ℤ n.replicas (pos 0)
    && n.java_opts =ₜ ""
    && resources_is_zero n.resources
    && absent n.storage
    && is_nil n.roles

opensearch_is_zero : Opensearch → Bool
unfolding storage_is_zero node_is_zero plugins_is_zero is_nil
opensearch_is_zero o =
    not o.enabled
    && storage_is_zero o.storage
    && node_is_zero o.ingest_node
    && node_is_zero o.master_node
    && node_is_zero o.data_node
    && is_nil o.policies
    && is_nil o.nodes
    && plugins_is_zero o.plugins
    && not o.disable_default_policy

dashboards_is_zero : OpensearchDashboards → Bool
unfolding resources_is_zero plugins_is_zero
dashboards_is_zero d =
    not d.enabled
    && resources_is_zero d.resources
    && eqb_ℤ d.replicas (pos 0)
    && plugins_is_zero d.plugins

unfoldable pub init_node : ElasticsearchNode → NodeRole → ElasticsearchNode
unfolding is_nil
init_node node role =
    let named = if node.name =ₜ "" then record node { name = "es-" <> role } else node in
    if is_nil named.roles then record named { roles = role ∷ [] } else named

-- the old component where it is enabled and the new one is empty
chosen_dashboards : Option OpensearchDashboards → OpensearchDashboards → OpensearchDashboards
unfolding dashboards_is_zero
chosen_dashboards none new = new
chosen_dashboards (some old) new =
    if old.enabled && not new.enabled && dashboards_is_zero new then old else new

unfoldable pub handle_opensearch_dashboards_conversion : VmiSpec → VmiSpec
unfolding chosen_dashboards
handle_opensearch_dashboards_conversion spec = record spec {
  opensearch_dashboards = chosen_dashboards spec.kibana spec.opensearch_dashboards;
  kibana = none;
}

chosen_opensearch : Option Opensearch → Opensearch → Opensearch
unfolding opensearch_is_zero
chosen_opensearch none new = new
chosen_opensearch (some old) new =
    if old.enabled && not new.enabled && opensearch_is_zero new then old else new

unfoldable pub handle_opensearch_conversion : VmiSpec → VmiSpec
unfolding chosen_opensearch
handle_opensearch_conversion spec = record spec {
  opensearch = chosen_opensearch spec.elasticsearch spec.opensearch;
  elasticsearch = none;
}

unfoldable pub or_text : String → String → String
or_text s default = if s =ₜ "" then default else s

or_time : Option String → String → Option String
or_time none now = some now
or_time (some t) now = some t

-- the secret's name, the creation time, the environment, the service type and the config maps
unfoldable pub set_names : Config → String → Vmi → Vmi
unfolding or_text or_time get_meta_name
set_names config now vmo = record vmo {
  status = record vmo.status {
    creation_time = or_time vmo.status.creation_time now;
    env_name = or_text vmo.status.env_name config.env_name;
  };
  spec = record vmo.spec {
    secret_name = vmo.name <> "-basicauth";
    service_type = or_text vmo.spec.service_type "ClusterIP";
    grafana = record vmo.spec.grafana {
      dashboards_config_map =
          or_text vmo.spec.grafana.dashboards_config_map (get_meta_name vmo.name "dashboards");
      datasources_config_map =
          or_text vmo.spec.grafana.datasources_config_map (get_meta_name vmo.name "datasource");
    };
  };
}

set_replicas : Config → VmiSpec → VmiSpec
unfolding wrap32
set_replicas config spec = record spec {
  opensearch_dashboards = record spec.opensearch_dashboards {
    replicas =
        if eqb_ℤ spec.opensearch_dashboards.replicas (pos 0)
        then wrap32 config.default_simple_component_replicas
        else spec.opensearch_dashboards.replicas;
  };
}

init_nodes : VmiSpec → VmiSpec
unfolding init_node
init_nodes spec = record spec {
  opensearch = record spec.opensearch {
    master_node = init_node spec.opensearch.master_node master_role;
    ingest_node = init_node spec.opensearch.ingest_node ingest_role;
    data_node = init_node spec.opensearch.data_node data_role;
  };
}

-- the conversions, the replicas and the nodes' names and roles
unfoldable pub set_spec : Config → VmiSpec → VmiSpec
unfolding handle_opensearch_dashboards_conversion set_replicas handle_opensearch_conversion
    init_nodes
set_spec config spec = init_nodes (
    handle_opensearch_conversion
      (set_replicas config (handle_opensearch_dashboards_conversion spec)))

from_storage : Storage → Option Storage → Storage
from_storage s none = s
from_storage s (some s') = s'

-- Grafana is the one component that has storage, and has one replica
init_grafana : String → Grafana → Result Grafana
unfolding from_storage get_meta_name
init_grafana vmo_name grafana = do
  s ← init_storage_element (some grafana.storage) (pos 1) (get_meta_name vmo_name "grafana")
  ok (record grafana { storage = from_storage grafana.storage s })

unfoldable pub init_data_node : String → ElasticsearchNode → Result ElasticsearchNode
unfolding get_meta_name
init_data_node vmo_name node = do
  s ← init_storage_element node.storage node.replicas (get_meta_name vmo_name node.name)
  ok (record node { storage = s })

unfoldable pub init_data_nodes : String → List ElasticsearchNode → Result (List ElasticsearchNode)
unfolding init_data_node data_node_matcher
init_data_nodes vmo_name [] = ok []
init_data_nodes vmo_name (node ∷ nodes) = do
  node' ← if data_node_matcher node then init_data_node vmo_name node else ok node
  nodes' ← init_data_nodes vmo_name nodes
  ok (node' ∷ nodes')

-- the storage elements of Grafana and of the groups of data nodes
unfoldable pub init_storage : String → VmiSpec → Result VmiSpec
unfolding init_grafana init_data_node init_data_nodes
init_storage vmo_name spec = do
  grafana ← init_grafana vmo_name spec.grafana
  data_node ← init_data_node vmo_name spec.opensearch.data_node
  nodes ← init_data_nodes vmo_name spec.opensearch.nodes
  ok (record spec {
    grafana = grafana;
    opensearch = record spec.opensearch { data_node = data_node; nodes = nodes };
  })

-- `vmo.Labels[k] = v`, which panics on a nil map
unfoldable pub set_label :
    String → String → Option (List (String × String)) → Result (Option (List (String × String)))
unfolding insert
set_label k v none = panic
set_label k v (some m) = ok (some (insert k v m))

unfoldable pub initialize_vmo_spec : Config → String → Vmi → Result Vmi
initialize_vmo_spec config now vmo = do
  let named = set_names config now vmo
  spec ← init_storage vmo.name (set_spec config named.spec)
  labels ← set_label "managed-cluster-name" config.cluster_name vmo.labels
  ok (record named {
    spec = spec;
    status = record named.status { state = or_text vmo.status.state "Running" };
    labels = labels;
  })
