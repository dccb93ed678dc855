-- ===== src/VmoStorage/Renamed.antt =====
-- The names of claims after `updateVMOStorageForPVC` of pkg/vmo/pvc_update.go.
use verrazzano_monitoring_op.Prelude.{
  String, ◌≡◌, refl, ◌∙◌, inl, inr, List, [], ◌∷◌, ◌++◌, arith, Bool-cases, select, map, sym, ap,
  ◌=ₜ◌, if◌then◌else◌,
}
use verrazzano_monitoring_op.Kube.{Deployment}
use verrazzano_monitoring_op.Nodes.{data_nodes, data_node_matcher}
use verrazzano_monitoring_op.Claims.{get_in_use_pvc_names, deployment_claims, node_claims, names_of}
use verrazzano_monitoring_op.Vmi.{Vmi, ElasticsearchNode}
use verrazzano_monitoring_op.VmoStorage.{
  rename_pvc, update_node_storage, update_data_nodes, update_vmo_storage_for_pvc,
}

rename-append :
    (old new : String) (xs ys : List String)
    → rename_pvc old new (xs ++ ys) ≡ rename_pvc old new xs ++ rename_pvc old new ys
unfolding rename_pvc
rename-append old new [] ys = refl
rename-append old new (x ∷ xs) ys = rw (rename-append old new xs ys) refl

node_lem :
    (old new : String) (node : ElasticsearchNode)
    → names_of (update_node_storage old new node).storage
      ≡ rename_pvc old new (names_of node.storage)
unfolding update_node_storage names_of rename_pvc
node_lem old new node = ground arith

still_data :
    (old new : String) (node : ElasticsearchNode)
    → data_node_matcher (update_node_storage old new node) ≡ data_node_matcher node
unfolding data_node_matcher update_node_storage
still_data old new node = refl

nodes_lem :
    (old new : String) (nodes : List ElasticsearchNode)
    → node_claims (select data_node_matcher (update_data_nodes old new nodes))
      ≡ rename_pvc old new (node_claims (select data_node_matcher nodes))
unfolding update_data_nodes node_claims select
nodes_lem old new [] = refl
nodes_lem old new (node ∷ nodes) = elim (Bool-cases (data_node_matcher node)) [
  | inl e ↦
      rw
        (
          e,
          still_data old new node ∙ e,
          node_lem old new node,
          nodes_lem old new nodes,
          rename-append old new (names_of node.storage)
              (node_claims (select data_node_matcher nodes)),
        )
        refl
  | inr e ↦ rw (e, e, nodes_lem old new nodes) refl
]

renamed_map :
    (old new : String) (names : List String)
    → rename_pvc old new names ≡ map (λ (n : String). if n =ₜ old then new else n) names
unfolding rename_pvc
renamed_map old new [] = refl
renamed_map old new (n ∷ ns) =
    ap (λ (rest : List String). (if n =ₜ old then new else n) ∷ rest) (renamed_map old new ns)

-- In the claims that the deployments and the groups of data nodes use, renaming a claim in the
-- instance puts the new name wherever a group has the old one, and changes nothing else.
pub update_vmo_storage_lem :
    (vmo : Vmi) (old new : String) (deployments : List Deployment)
    → get_in_use_pvc_names deployments (update_vmo_storage_for_pvc vmo old new)
      ≡ deployment_claims deployments
        ++ map (λ (n : String). if n =ₜ old then new else n) (node_claims (data_nodes vmo))
unfolding update_vmo_storage_for_pvc get_in_use_pvc_names
update_vmo_storage_lem vmo old new deployments =
    rw (node_lem old new vmo.spec.opensearch.data_node, nodes_lem old new vmo.spec.opensearch.nodes)
      (ap (λ (names : List String). deployment_claims deployments ++ names)
        (sym (
            rename-append old new (names_of vmo.spec.opensearch.data_node.storage)
              (node_claims (select data_node_matcher vmo.spec.opensearch.nodes)))
          ∙ renamed_map old new (node_claims (data_nodes vmo))))
