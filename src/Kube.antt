-- ===== src/Kube.antt =====
-- The Kubernetes objects that the operator reads and writes, cut down to the fields that the
-- modelled code looks at. All else of an object is its `rest`, which only `diff.Diff` compares.
-- A pointer field that the API server defaults, such as `Spec.Replicas`, is its value.
use verrazzano_monitoring_op.Prelude.{String, Bool, Option, List}
use verrazzano_monitoring_op.Prelude.Int.{ℤ}

-- a `map[string]string`
abbrev pub Labels : Type 0
Labels = List (String × String)

pub record EnvVar : Type 0 where
  pub name : String
  pub value : String

pub record Container : Type 0 where
  pub name : String
  pub env : List EnvVar
  pub rest : String

pub record OwnerReference : Type 0 where
  pub api_version : String
  pub kind : String
  pub name : String
  pub uid : String

pub record StatefulSet : Type 0 where
  pub name : String
  pub namespace : String
  pub replicas : ℤ  -- Spec.Replicas, int32
  pub ready_replicas : ℤ  -- Status.ReadyReplicas, int32
  pub status_replicas : ℤ  -- Status.Replicas, int32
  pub volume_claim_templates : List String
  pub selector : Labels
  pub containers : List Container
  pub rest : String

pub record Pvc : Type 0 where
  pub name : String
  pub namespace : String
  pub selector : Option Labels
  pub storage : ℤ  -- the requested bytes
  pub storage_class_name : Option String
  pub owner_references : List OwnerReference
  pub labels : Labels

pub record StorageClass : Type 0 where
  pub name : String
  pub provisioner : String
  pub allow_volume_expansion : Option Bool
  pub annotations : Labels

-- a volume is the name of its claim, if it has one
pub record Deployment : Type 0 where
  pub name : String
  pub generate_name : String
  pub namespace : String
  pub replicas : ℤ  -- Spec.Replicas, int32
  pub status_replicas : ℤ
  pub available_replicas : ℤ
  pub ready_replicas : ℤ
  pub selector : Labels
  pub template_labels : Labels
  pub volumes : List (Option String)
  pub rest : String

-- a node of the cluster: its conditions as type and status, and the effects of its taints
pub record KubeNode : Type 0 where
  pub conditions : List (String × String)
  pub taints : List String
  pub labels : Labels

-- the kinds of object that are made and written whole
pub data Kind : Type 0 where
  service : Kind
  ingress : Kind
  role_binding : Kind
  config_map : Kind

pub record Object : Type 0 where
  pub name : String
  pub owner_references : List OwnerReference
  pub entries : Labels  -- the Data of a config map
  pub rest : String
