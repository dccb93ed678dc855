-- ===== src/VmoStorage.antt =====
-- The storage of an instance: `setPerNodeStorage` and `updateVMOStorageForPVC` of
-- pkg/vmo/pvc_update.go. The lists of nodes share the pointers to their storage elements, so a
-- change reaches the instance.
pub mod Renamed
use verrazzano_monitoring_op.Prelude.{
  ℕ, zero, suc, ◌+◌, ◌-◌, ◌*◌, ◌/◌, ◌%◌, ◌≤◌, ◌<◌, String, ◌<>◌, ◌≡◌, refl, sym, ap, ◌∙◌, ◌≢◌, ◌↔◌,
  ◌⊎◌, inl, inr, Bool, true, false, not, ◌&&◌, ◌||◌, Option, none, some, List, [], ◌∷◌, ◌++◌, map,
  Memᴰ, append_assoc, append-nil, arith, eq_iff, ltb, leb, ◌==◌, ◌=ₜ◌, if◌then◌else◌, Bool-cases,
  Option-cases, length, get_elem?, get_or, take, All, any, all, select, any_of_mem, any_witness,
  mem_of_mem-select, mem-select,
}
use verrazzano_monitoring_op.Prelude.Int.{
  ℤ, pos, negsuc, pos_part, neg_part, sub_ℕ, ◌+ℤ◌, ltb_ℤ, leb_ℤ, eqb_ℤ, quot, add32, add64, wrap64,
  wrap32,
}
use verrazzano_monitoring_op.Nodes.{data_node_matcher}
use verrazzano_monitoring_op.Vmi.{Vmi, VmiSpec, Grafana, Storage, Opensearch, ElasticsearchNode}

absent {ℓ} : {A : Type ℓ} → Option A → Bool
absent none = true
absent (some a) = false

-- `updateFunc` of `setPerNodeStorage`
unfoldable pub give_storage : Storage → ElasticsearchNode → ElasticsearchNode
unfolding absent
give_storage s node =
    if ltb_ℤ (pos 0) node.replicas && absent node.storage
    then record node {
      storage = some (record { size = s.size; availability_domain = ""; pvc_names = [] });
    }
    else node

copy_names : List String → Option Storage → Option Storage
copy_names names none = none
copy_names [] (some s) = some s
copy_names (n ∷ ns) (some s) = some (record s { pvc_names = n ∷ ns })

unfoldable pub set_per_node_storage : Opensearch → Opensearch
unfolding give_storage copy_names
set_per_node_storage o =
    let given = give_storage o.storage o.data_node in
    record o {
      master_node = give_storage o.storage o.master_node;
      data_node = record given { storage = copy_names o.storage.pvc_names given.storage };
      storage = record { size = ""; availability_domain = ""; pvc_names = [] };
    }

-- the closure `updateStorage` of `updateVMOStorageForPVC`
unfoldable pub rename_pvc : String → String → List String → List String
rename_pvc old new [] = []
rename_pvc old new (n ∷ ns) = (if n =ₜ old then new else n) ∷ rename_pvc old new ns

update_storage : String → String → Storage → Storage
unfolding rename_pvc
update_storage old new s = record s { pvc_names = rename_pvc old new s.pvc_names }

update_storage_if_there : String → String → Option Storage → Option Storage
unfolding update_storage
update_storage_if_there old new none = none
update_storage_if_there old new (some s) = some (update_storage old new s)

unfoldable pub update_node_storage : String → String → ElasticsearchNode → ElasticsearchNode
unfolding update_storage_if_there
update_node_storage old new node = record node {
  storage = update_storage_if_there old new node.storage;
}

unfoldable pub update_data_nodes : String → String → List ElasticsearchNode → List ElasticsearchNode
unfolding update_node_storage
update_data_nodes old new [] = []
update_data_nodes old new (node ∷ nodes) =
    (if data_node_matcher node then update_node_storage old new node else node)
    ∷ update_data_nodes old new nodes

unfoldable pub update_vmo_storage_for_pvc : Vmi → String → String → Vmi
unfolding update_storage update_node_storage update_data_nodes
update_vmo_storage_for_pvc vmo old new = record vmo {
  spec = record vmo.spec {
    grafana = record vmo.spec.grafana { storage = update_storage old new vmo.spec.grafana.storage };
    opensearch = record vmo.spec.opensearch {
      data_node = update_node_storage old new vmo.spec.opensearch.data_node;
      nodes = update_data_nodes old new vmo.spec.opensearch.nodes;
    };
  };
}
