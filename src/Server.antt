-- ===== src/Server.antt =====
-- What the operator calls: the Kubernetes API and its listers, and the HTTP servers of OpenSearch
-- and OpenSearch Dashboards. None is under the repository: a call is a value, and its answer a
-- `Reply`, of which a caller reads the part that belongs to its call.
pub mod Costs
use verrazzano_monitoring_op.Prelude.{
  ℕ, String, Bool, Option, none, some, List, ◌==◌, if◌then◌else◌,
}
use verrazzano_monitoring_op.Prelude.Int.{ℤ}
use verrazzano_monitoring_op.SavedObject.{SavedObject}
use verrazzano_monitoring_op.Policy.{IsmPolicy}
use verrazzano_monitoring_op.Kube.{
  Kind, Object, Labels, StatefulSet, Pvc, StorageClass, Deployment, KubeNode,
}
use verrazzano_monitoring_op.Vmi.{Vmi}
use verrazzano_monitoring_op.Prelude.Io.{Error, Result, Io, pure, raise, call, ◌>>=◌, ◌>>◌}

-- Each call of Kubernetes names the namespace first.
pub data Call : Type 0 where
  list_stateful_sets : String → Labels → Call
  create_stateful_set : String → StatefulSet → Call
  update_stateful_set : String → StatefulSet → Call
  delete_stateful_set : String → String → Call
  delete_pod : String → String → Call
  get_pvc : String → String → Call
  list_pvcs : String → Labels → Call
  create_pvc : String → Pvc → Call
  update_pvc : String → Pvc → Call
  delete_pvc : String → String → Call
  get_storage_class : String → Call
  list_storage_classes : Call
  list_deployments : String → Labels → Call
  get_deployment : String → String → Call
  create_deployment : String → Deployment → Call
  update_deployment : String → Deployment → Call
  delete_deployment : String → String → Call
  list_nodes : Call
  get_secret : String → String → Call
  get_vmi : String → String → Call
  update_vmi : String → Vmi → Call
  list_crds : Call
  get_object : Kind → String → String → Call
  list_objects : Kind → String → Labels → Call
  create_object : Kind → String → Object → Call
  update_object : Kind → String → Object → Call
  delete_object : Kind → String → String → Call
  list_pods : String → String → Call  -- with a selector as text
  get_cluster_role : String → Call
  random_id : ℕ → Call  -- `resources.GetNewRandomID`, whose source of random numbers may fail
  random : ℕ → Call  -- `rand.Int` below a bound
  http : String → String → String → Call

-- one document of an answer of OpenSearch
pub record Node : Type 0 where
  pub version : String

pub record Reply : Type 0 where
  pub error : Option Error
  pub not_found : Bool  -- the error is one that `IsNotFound` accepts
  pub status : ℕ
  pub decode_error : Option Error  -- the body is not the JSON that the caller decodes
  pub health : String
  pub nodes : List (Result Node)
  pub acknowledged : Bool
  pub stateful_sets : List StatefulSet
  pub pvc : Pvc
  pub pvcs : List Pvc
  pub storage_class : StorageClass
  pub storage_classes : List StorageClass
  pub deployments : List Deployment
  pub deployment : Deployment
  pub kube_nodes : List KubeNode
  pub number : ℕ
  pub policy : IsmPolicy
  pub policies : List IsmPolicy
  pub indices : List String
  pub saved_objects : List SavedObject
  pub total : ℤ
  pub data_streams : List (List String)  -- the names of the indices of each
  pub explained : Result (Option (Option String))  -- the policy of an index that is managed, or not
  pub text : String
  pub vmi : Vmi
  pub object : Object
  pub objects : List Object
  pub already_exists : Bool  -- the error is one that `IsAlreadyExists` accepts
  pub pod_labels : List Labels
  pub names : List String  -- of the custom resource definitions

abbrev pub Client : Type 0 → Type 0
Client A = Io Call Reply A

-- the settings of the operator and of its environment that the modelled code reads
pub record Config : Type 0 where
  pub master_http_endpoint : String  -- an environment variable, empty where it is not set
  pub dashboards_http_endpoint : String  -- the same for Dashboards
  pub es_wait_target_version : String
  pub storage_class : String  -- Pvcs.StorageClass of the operator's configuration
  pub zone_match_label : String  -- Pvcs.ZoneMatchLabel
  pub env_name : String
  pub default_simple_component_replicas : ℤ
  pub cluster_name : String
  pub new_request_error : String → Option Error  -- of `http.NewRequest`, for a URL

-- `if err != nil { return err }`
abbrev pub check_error : Option Error → Client (Unit {0})
check_error none = pure tt
check_error (some e) = raise e

-- `v, err := c(...)` with `return err` where it fails
unfoldable pub ask : Call → Client Reply
ask c = do reply ← call c; check_error reply.error; pure reply

-- a request, sent and its status checked
unfoldable pub request : Config → String → String → String → Error → Client Reply
unfolding ask
request config method url body wrong_status = do
  check_error (config.new_request_error url)
  reply ← ask (http method url body)
  if reply.status == 200 then pure reply else raise wrong_status

-- the same where the body is decoded
unfoldable pub request_json : Config → String → String → String → Error → Client Reply
unfolding request
request_json config method url body wrong_status = do
  reply ← request config method url body wrong_status
  check_error reply.decode_error
  pure reply
