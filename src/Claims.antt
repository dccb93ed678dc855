-- ===== src/Claims.antt =====
-- The names of the claims in use: `getInUsePVCNames` of pkg/vmo/pvc_update.go.
pub mod InUse
use verrazzano_monitoring_op.Prelude.{String, Option, none, some, List, [], ◌∷◌, ◌++◌}
use verrazzano_monitoring_op.Kube.{Deployment}
use verrazzano_monitoring_op.Nodes.{data_nodes}
use verrazzano_monitoring_op.Vmi.{Vmi, Storage, ElasticsearchNode}

claims : List (Option String) → List String
claims [] = []
claims (none ∷ volumes) = claims volumes
claims (some name ∷ volumes) = name ∷ claims volumes

unfoldable pub deployment_claims : List Deployment → List String
unfolding claims
deployment_claims [] = []
deployment_claims (d ∷ ds) = claims d.volumes ++ deployment_claims ds

unfoldable pub names_of : Option Storage → List String
names_of none = []
names_of (some s) = s.pvc_names

unfoldable pub node_claims : List ElasticsearchNode → List String
unfolding names_of
node_claims [] = []
node_claims (node ∷ nodes) = names_of node.storage ++ node_claims nodes

-- the keys of the map that `getInUsePVCNames` returns
unfoldable pub get_in_use_pvc_names : List Deployment → Vmi → List String
unfolding deployment_claims node_claims data_nodes
get_in_use_pvc_names deployments vmo = deployment_claims deployments ++ node_claims (data_nodes vmo)
