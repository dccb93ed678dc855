-- ===== src/Nodes.antt =====
-- pkg/resources/nodes/nodes.go: the node groups of a cluster, sorted by their roles.
pub mod Matchers
pub mod Counts
use verrazzano_monitoring_op.Prelude.{
  ℕ, zero, suc, String, ◌<>◌, Bool, true, false, ◌||◌, ◌&&◌, List, [], ◌∷◌, ◌++◌, ◌=ₜ◌,
  if◌then◌else◌, select,
}
use verrazzano_monitoring_op.Prelude.Int.{ℤ, pos, negsuc, add32, eqb_ℤ, pos_part}
use verrazzano_monitoring_op.Prelude.Text.{join, itoa}
use verrazzano_monitoring_op.Vmi.{
  Vmi, ElasticsearchNode, NodeRole, master_role, data_role, ingest_role,
}
use verrazzano_monitoring_op.Names.{get_meta_name}

pub record NodeCount : Type 0 where
  pub master_nodes : ℤ
  pub ingest_nodes : ℤ
  pub data_nodes : ℤ
  pub replicas : ℤ

-- the loop of the closure that `matcherFactory` returns; `is_match` is its variable
match_roles : (NodeRole → Bool) → (NodeRole → Bool) → List NodeRole → Bool → Bool
match_roles excluded matched [] is_match = is_match
match_roles excluded matched (role ∷ roles) is_match =
    if excluded role
    then false
    else match_roles excluded matched roles (if matched role then true else is_match)

matcher_factory : (NodeRole → Bool) → (NodeRole → Bool) → ElasticsearchNode → Bool
unfolding match_roles
matcher_factory excluded matched node = match_roles excluded matched node.roles false

unfoldable pub master_node_matcher : ElasticsearchNode → Bool
unfolding matcher_factory
master_node_matcher = matcher_factory (λ role. false) (λ role. role =ₜ master_role)

unfoldable pub data_node_matcher : ElasticsearchNode → Bool
unfolding matcher_factory
data_node_matcher = matcher_factory (λ role. role =ₜ master_role) (λ role. role =ₜ data_role)

unfoldable pub ingest_node_matcher : ElasticsearchNode → Bool
unfolding matcher_factory
ingest_node_matcher =
    matcher_factory (λ role. role =ₜ master_role || role =ₜ data_role) (λ role. role =ₜ ingest_role)

unfoldable pub filter_nodes : Vmi → (ElasticsearchNode → Bool) → List ElasticsearchNode
unfolding select
filter_nodes vmo matcher = select matcher vmo.spec.opensearch.nodes

unfoldable pub master_nodes : Vmi → List ElasticsearchNode
unfolding filter_nodes master_node_matcher
master_nodes vmo = vmo.spec.opensearch.master_node ∷ filter_nodes vmo master_node_matcher

unfoldable pub data_nodes : Vmi → List ElasticsearchNode
unfolding filter_nodes data_node_matcher
data_nodes vmo = vmo.spec.opensearch.data_node ∷ filter_nodes vmo data_node_matcher

unfoldable pub ingest_nodes : Vmi → List ElasticsearchNode
unfolding filter_nodes ingest_node_matcher
ingest_nodes vmo = vmo.spec.opensearch.ingest_node ∷ filter_nodes vmo ingest_node_matcher

-- `GetRolesString`: a comma behind every role but the last
unfoldable pub get_roles_string : ElasticsearchNode → String
unfolding join
get_roles_string node = join node.roles ","

unfoldable pub all_nodes : Vmi → List ElasticsearchNode
all_nodes vmo =
    vmo.spec.opensearch.nodes
    ++ vmo.spec.opensearch.master_node ∷ vmo.spec.opensearch.data_node
      ∷ vmo.spec.opensearch.ingest_node ∷ []

-- one round of the inner loop of `GetNodeCount`; the last branch is its `default`
count_role : ℤ → NodeCount → NodeRole → NodeCount
count_role replicas c role =
    if role =ₜ ingest_role
    then record c { ingest_nodes = add32 c.ingest_nodes replicas }
    else if role =ₜ data_role
    then record c { data_nodes = add32 c.data_nodes replicas }
    else record c { master_nodes = add32 c.master_nodes replicas }

count_roles : ℤ → NodeCount → List NodeRole → NodeCount
unfolding count_role
count_roles replicas c [] = c
count_roles replicas c (role ∷ roles) = count_roles replicas (count_role replicas c role) roles

-- one round of the outer loop
count_node : NodeCount → ElasticsearchNode → NodeCount
unfolding count_roles
count_node c node =
    count_roles node.replicas (record c { replicas = add32 c.replicas node.replicas }) node.roles

count_nodes : NodeCount → List ElasticsearchNode → NodeCount
unfolding count_node
count_nodes c [] = c
count_nodes c (node ∷ nodes) = count_nodes (count_node c node) nodes

abbrev pub no_nodes : NodeCount
no_nodes = record {
  master_nodes = pos 0;
  ingest_nodes = pos 0;
  data_nodes = pos 0;
  replicas = pos 0;
}

unfoldable pub get_node_count : Vmi → NodeCount
unfolding count_nodes all_nodes
get_node_count vmo = count_nodes no_nodes (all_nodes vmo)

unfoldable pub is_single_node_cluster : Vmi → Bool
unfolding get_node_count
is_single_node_cluster vmo =
    let node_count = get_node_count vmo in
    eqb_ℤ node_count.master_nodes (pos 1) && eqb_ℤ node_count.replicas (pos 1)

-- the inner loop of `InitialMasterNodes` at `left` rounds from the end, `j` counting up
replica_names : String → String → ℕ → ℕ → List String
replica_names vmo_name node_name j zero = []
replica_names vmo_name node_name j (suc left) =
    (get_meta_name vmo_name node_name <> "-" <> itoa (pos j))
    ∷ replica_names vmo_name node_name (suc j) left

initial_names : String → List ElasticsearchNode → List String
unfolding replica_names
initial_names vmo_name [] = []
initial_names vmo_name (node ∷ nodes) =
    replica_names vmo_name node.name 0 (pos_part node.replicas) ++ initial_names vmo_name nodes

unfoldable pub initial_master_nodes : String → List ElasticsearchNode → String
unfolding initial_names
initial_master_nodes vmo_name nodes = join (initial_names vmo_name nodes) ","
