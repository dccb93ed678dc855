-- ===== src/Examples/Inputs.antt =====
-- A small instance, its operator's settings and some Kubernetes objects.
use verrazzano_monitoring_op.Kube.{Object, Deployment}
use verrazzano_monitoring_op.Prelude.{
  false, ◌≡◌, ◌≢◌, eq_iff, ℕ, String, true, false, Option, none, some, List, [], ◌∷◌, ◌=ₜ◌,
  if◌then◌else◌,
}
use verrazzano_monitoring_op.Prelude.Int.{pos}
use verrazzano_monitoring_op.Prelude.Dict.{Dict}
use verrazzano_monitoring_op.Kube.{StatefulSet, Pvc}
use verrazzano_monitoring_op.Prelude.Io.{ok}
use verrazzano_monitoring_op.Policy.{empty_policy}
use verrazzano_monitoring_op.Server.{Config, Reply, Call}
use verrazzano_monitoring_op.StorageClasses.{no_storage_class}
use verrazzano_monitoring_op.Vmi.{
  Vmi, Grafana, Storage, Resources, Plugins, Opensearch, OpensearchDashboards, ElasticsearchNode,
  NodeRole,
}

abbrev pub no_resources : Resources
no_resources = record {
  limit_cpu = "";
  limit_memory = "";
  request_cpu = "";
  request_memory = "";
  max_size_disk = "";
  min_size_disk = "";
}

abbrev pub no_plugins : Plugins
no_plugins = record { enabled = false; install_list = [] }

abbrev pub no_storage : Storage
no_storage = record { size = ""; availability_domain = ""; pvc_names = [] }

abbrev pub sized : List String → Storage
sized names = record { size = "50Gi"; availability_domain = ""; pvc_names = names }

abbrev pub group : String → ℕ → List NodeRole → Option Storage → ElasticsearchNode
group name replicas roles s = record {
  name = name;
  replicas = pos replicas;
  java_opts = "";
  resources = no_resources;
  storage = s;
  roles = roles;
}

abbrev pub opensearch_with : ElasticsearchNode → ElasticsearchNode → Opensearch
opensearch_with master data_group = record {
  enabled = true;
  storage = no_storage;
  ingest_node = group "" 0 [] none;
  master_node = master;
  data_node = data_group;
  policies = [];
  nodes = [];
  plugins = no_plugins;
  disable_default_policy = false;
}

abbrev pub dashboards : OpensearchDashboards
dashboards = record {
  enabled = true;
  resources = no_resources;
  replicas = pos 0;
  plugins = no_plugins;
}

abbrev pub grafana : Grafana
grafana = record {
  enabled = true;
  storage = sized [];
  datasources_config_map = "";
  dashboards_config_map = "";
  resources = no_resources;
  replicas = pos 1;
}

abbrev pub instance_with : Opensearch → Vmi
instance_with opensearch = record {
  name = "system";
  namespace = "verrazzano-system";
  uid = "1";
  labels = some [];
  spec = record {
    current_version = "";
    lock = false;
    uri = "";
    secrets_name = "";
    secret_name = "";
    cascading_delete = true;
    grafana = grafana;
    elasticsearch = none;
    opensearch = opensearch;
    kibana = none;
    opensearch_dashboards = dashboards;
    service_type = "";
    nat_gateway_ips = [];
    ingress_target_dns_name = "";
    storage_class = none;
  };
  status = record { env_name = ""; state = ""; creation_time = none; hash = 0 };
}

-- three master nodes and two data nodes
abbrev pub cluster : Vmi
cluster =
    instance_with
      (opensearch_with (group "" 3 [] none) (group "" 2 ("data" ∷ []) (some (sized []))))

-- one node that has all roles
abbrev pub single : Vmi
single =
    instance_with
      (opensearch_with (group "" 1 ("master" ∷ "data" ∷ "ingest" ∷ []) none) (group "" 0 [] none))

-- data nodes whose claims have names
abbrev pub claimed : Vmi
claimed = instance_with (
    opensearch_with (group "" 3 [] none) (
      group "es-data" 2 ("data" ∷ [])
        (some (sized ("vmi-system-es-data" ∷ "vmi-system-es-data-1" ∷ [])))))

abbrev pub settings : Config
settings = record {
  master_http_endpoint = "";
  dashboards_http_endpoint = "";
  es_wait_target_version = "1.2.3";
  storage_class = "";
  zone_match_label = "";
  env_name = "default";
  default_simple_component_replicas = pos 1;
  cluster_name = "local";
  new_request_error = λ url. none;
}

abbrev pub set_of : String → ℕ → ℕ → String → StatefulSet
set_of name replicas ready rest = record {
  name = name;
  namespace = "verrazzano-system";
  replicas = pos replicas;
  ready_replicas = pos ready;
  status_replicas = pos ready;
  volume_claim_templates = [];
  selector = [];
  containers = [];
  rest = rest;
}

-- a difference in the rest of a set
abbrev pub diff_rest : StatefulSet → StatefulSet → String
diff_rest a b = if a.rest =ₜ b.rest then "" else "changed"

abbrev pub in_order : Dict StatefulSet → Dict StatefulSet
in_order m = m

abbrev pub claim : String → Pvc
claim name = record {
  name = name;
  namespace = "verrazzano-system";
  selector = none;
  storage = pos 50;
  storage_class_name = none;
  owner_references = [];
  labels = [];
}

-- a deployment of a data node
abbrev pub data_deployment : ℕ → Deployment
data_deployment ready = record {
  name = "vmi-system-es-data-0";
  generate_name = "";
  namespace = "verrazzano-system";
  replicas = pos 1;
  status_replicas = pos ready;
  available_replicas = pos ready;
  ready_replicas = pos ready;
  selector = [];
  template_labels = ("app", "system-es-data") ∷ [];
  volumes = [];
  rest = "";
}

abbrev pub object_of : String → Object
object_of name = record { name = name; owner_references = []; entries = []; rest = "" }

-- a server that answers every call in the same way
abbrev pub answer : ℕ → String → Reply
answer status health = record {
  error = none;
  not_found = false;
  status = status;
  decode_error = none;
  health = health;
  nodes = [];
  acknowledged = true;
  stateful_sets = [];
  pvc = claim "";
  pvcs = claim "vmi-system-es-data" ∷ claim "vmi-system-old" ∷ [];
  storage_class = no_storage_class;
  storage_classes = [];
  deployments = [];
  deployment = data_deployment 1;
  kube_nodes = [];
  number = 0;
  policy = empty_policy;
  policies = [];
  indices = [];
  saved_objects = [];
  total = pos 0;
  data_streams = [];
  explained = ok none;
  text = "";
  vmi = cluster;
  object = object_of "";
  objects = [];
  already_exists = false;
  pod_labels = [];
  names = [];
}

abbrev pub server : String → List Call → Call → Reply
server health calls c = answer 200 health

pub differ : (s t : String) → (s =ₜ t) ≡ false → s ≢ t
differ s t h e = cc ((eq_iff s t).1 e)
