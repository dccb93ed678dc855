-- ===== src/Vmi.antt =====
-- The custom resource, pkg/apis/vmcontroller/v1/types.go. A pointer to a struct is an `Option`, an
-- `int32` is an integer that the operations keep within 32 bits, and a `NodeRole` is a string type.
-- Left out are the fields that no modelled function reads: Prometheus, AlertManager and API, and
-- Grafana's database and mail settings.
use verrazzano_monitoring_op.Prelude.{ℕ, String, Bool, Option, List}
use verrazzano_monitoring_op.Prelude.Int.{ℤ}

abbrev pub NodeRole : Type 0
NodeRole = String

abbrev pub master_role : NodeRole
master_role = "master"

abbrev pub data_role : NodeRole
data_role = "data"

abbrev pub ingest_role : NodeRole
ingest_role = "ingest"

pub record Storage : Type 0 where
  pub size : String
  pub availability_domain : String
  pub pvc_names : List String

pub record Resources : Type 0 where
  pub limit_cpu : String
  pub limit_memory : String
  pub request_cpu : String
  pub request_memory : String
  pub max_size_disk : String
  pub min_size_disk : String

pub record ElasticsearchNode : Type 0 where
  pub name : String
  pub replicas : ℤ  -- int32
  pub java_opts : String
  pub resources : Resources
  pub storage : Option Storage
  pub roles : List NodeRole

pub record RolloverPolicy : Type 0 where
  pub min_index_age : Option String
  pub min_size : Option String
  pub min_doc_count : Option ℤ

pub record IndexManagementPolicy : Type 0 where
  pub policy_name : String
  pub index_pattern : String
  pub min_index_age : Option String
  pub rollover : RolloverPolicy

pub record Plugins : Type 0 where
  pub enabled : Bool
  pub install_list : List String

-- also the deprecated `Elasticsearch`, which has the same fields
pub record Opensearch : Type 0 where
  pub enabled : Bool
  pub storage : Storage
  pub ingest_node : ElasticsearchNode
  pub master_node : ElasticsearchNode
  pub data_node : ElasticsearchNode
  pub policies : List IndexManagementPolicy
  pub nodes : List ElasticsearchNode
  pub plugins : Plugins
  pub disable_default_policy : Bool

-- also the deprecated `Kibana`, which has the same fields
pub record OpensearchDashboards : Type 0 where
  pub enabled : Bool
  pub resources : Resources
  pub replicas : ℤ  -- int32
  pub plugins : Plugins

pub record Grafana : Type 0 where
  pub enabled : Bool
  pub storage : Storage
  pub datasources_config_map : String
  pub dashboards_config_map : String
  pub resources : Resources
  pub replicas : ℤ  -- int32

pub record VmiSpec : Type 0 where
  pub current_version : String
  pub lock : Bool
  pub uri : String
  pub secrets_name : String
  pub secret_name : String
  pub cascading_delete : Bool
  pub grafana : Grafana
  pub elasticsearch : Option Opensearch
  pub opensearch : Opensearch
  pub kibana : Option OpensearchDashboards
  pub opensearch_dashboards : OpensearchDashboards
  pub service_type : String
  pub nat_gateway_ips : List String
  pub ingress_target_dns_name : String
  pub storage_class : Option String

pub record VmiStatus : Type 0 where
  pub env_name : String
  pub state : String
  pub creation_time : Option String
  pub hash : ℕ  -- uint32

pub record Vmi : Type 0 where
  pub name : String
  pub namespace : String
  pub uid : String
  pub labels : Option (List (String × String))  -- `none` is the nil map
  pub spec : VmiSpec
  pub status : VmiStatus
