-- ===== src/Claims/InUse.antt =====
-- Which claims `getInUsePVCNames` of pkg/vmo/pvc_update.go finds in use.
use verrazzano_monitoring_op.Prelude.{
  String, ◌≡◌, ◌⊎◌, inl, inr, true, Option, none, some, List, [], ◌∷◌, ◌++◌, Memᴰ, mem-select,
}
use verrazzano_monitoring_op.Kube.{Deployment}
use verrazzano_monitoring_op.Nodes.{data_nodes, data_node_matcher}
use verrazzano_monitoring_op.Vmi.{Vmi, Storage, ElasticsearchNode}
use verrazzano_monitoring_op.Claims.{
  claims, deployment_claims, names_of, node_claims, get_in_use_pvc_names,
}

-- a deployment of the list has a volume of the claim
abbrev pub Mounted : List Deployment → String → Type 0
Mounted deployments name = (d : Deployment) × Memᴰ d deployments × Memᴰ (some name) d.volumes

-- the data node of the instance, or a group of its list that has the role of a data node, names it
abbrev pub Named : Vmi → String → Type 0
Named vmo name =
    (node : ElasticsearchNode) × ((node ≡ vmo.spec.opensearch.data_node)
      ⊎ (Memᴰ node vmo.spec.opensearch.nodes × (data_node_matcher node ≡ true)))
    × ((s : Storage) × (node.storage ≡ some s) × Memᴰ name s.pvc_names)

mem_left : {A : Type 0} {x : A} (xs ys : List A) → Memᴰ x xs → Memᴰ x (xs ++ ys)
mem_left [] ys m = elim m [ ]
mem_left (x ∷ xs) ys (Memᴰ.head e) = Memᴰ.head e
mem_left (x ∷ xs) ys (Memᴰ.tail m) = Memᴰ.tail (mem_left xs ys m)

mem_right : {A : Type 0} {x : A} (xs ys : List A) → Memᴰ x ys → Memᴰ x (xs ++ ys)
mem_right [] ys m = m
mem_right (x ∷ xs) ys m = Memᴰ.tail (mem_right xs ys m)

claims_mem :
    (name : String) (volumes : List (Option String))
    → Memᴰ (some name) volumes
    → Memᴰ name (claims volumes)
unfolding claims
claims_mem name [] m = elim m [ ]
claims_mem name (none ∷ vs) (Memᴰ.head e) = absurd (cc)
claims_mem name (some n ∷ vs) (Memᴰ.head e) = Memᴰ.head (cc)
claims_mem name (none ∷ vs) (Memᴰ.tail m) = claims_mem name vs m
claims_mem name (some n ∷ vs) (Memᴰ.tail m) = Memᴰ.tail (claims_mem name vs m)

deployment_claims_mem :
    (name : String) (ds : List Deployment) (d : Deployment)
    → Memᴰ d ds
    → Memᴰ (some name) d.volumes
    → Memᴰ name (deployment_claims ds)
unfolding deployment_claims
deployment_claims_mem name [] d m v = elim m [ ]
deployment_claims_mem name (x ∷ xs) d (Memᴰ.head e) v =
    mem_left (claims x.volumes) (deployment_claims xs) (claims_mem name x.volumes (rw e at v))
deployment_claims_mem name (x ∷ xs) d (Memᴰ.tail m) v =
    mem_right (claims x.volumes) (deployment_claims xs) (deployment_claims_mem name xs d m v)

names_of_mem :
    (name : String) (storage : Option Storage) (s : Storage)
    → storage ≡ some s
    → Memᴰ name s.pvc_names
    → Memᴰ name (names_of storage)
unfolding names_of
names_of_mem name storage s e m = rw e m

node_claims_mem :
    (name : String) (nodes : List ElasticsearchNode) (node : ElasticsearchNode)
    → Memᴰ node nodes
    → Memᴰ name (names_of node.storage)
    → Memᴰ name (node_claims nodes)
unfolding node_claims
node_claims_mem name [] node m v = elim m [ ]
node_claims_mem name (x ∷ xs) node (Memᴰ.head e) v =
    mem_left (names_of x.storage) (node_claims xs) (rw e at v)
node_claims_mem name (x ∷ xs) node (Memᴰ.tail m) v =
    mem_right (names_of x.storage) (node_claims xs) (node_claims_mem name xs node m v)

data_nodes_mem :
    (vmo : Vmi) (node : ElasticsearchNode)
    → (node ≡ vmo.spec.opensearch.data_node)
      ⊎ (Memᴰ node vmo.spec.opensearch.nodes × (data_node_matcher node ≡ true))
    → Memᴰ node (data_nodes vmo)
unfolding data_nodes
data_nodes_mem vmo node (inl e) = Memᴰ.head e
data_nodes_mem vmo node (inr (m, e)) =
    Memᴰ.tail (mem-select data_node_matcher vmo.spec.opensearch.nodes m e)

pub get_in_use_pvc_names_mem :
    (deployments : List Deployment) (vmo : Vmi) (name : String)
    → Mounted deployments name ⊎ Named vmo name
    → Memᴰ name (get_in_use_pvc_names deployments vmo)
unfolding get_in_use_pvc_names
get_in_use_pvc_names_mem deployments vmo name (inl (d, m, v)) =
    mem_left (deployment_claims deployments) (node_claims (data_nodes vmo))
      (deployment_claims_mem name deployments d m v)
get_in_use_pvc_names_mem deployments vmo name (inr (node, m, named)) =
    let (s, e, v) = named in
    mem_right (deployment_claims deployments) (node_claims (data_nodes vmo)) (
      node_claims_mem name (data_nodes vmo) node (data_nodes_mem vmo node m)
        (names_of_mem name node.storage s e v))
