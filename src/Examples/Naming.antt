-- ===== src/Examples/Naming.antt =====
-- Names, roles, storage elements and heap sizes.
use verrazzano_monitoring_op.Prelude.{
  ◌^◌, ◌+◌, ◌*◌, ◌/◌, ◌≤◌, ◌<◌, ◌<>◌, ◌≡◌, refl, true, not, ◌&&◌, ◌||◌, none, some, [], ◌∷◌, arith,
  length, All, any,
}
use verrazzano_monitoring_op.Prelude.Int.{pos, negsuc, add32}
use verrazzano_monitoring_op.Prelude.Io.{ok, panic}
use verrazzano_monitoring_op.Prelude.Io.Fallible.{◌>>=◌}
use verrazzano_monitoring_op.Prelude.Text.{split, atoi, digits}
use verrazzano_monitoring_op.Names.{get_next_string_in_sequence, last_token}
use verrazzano_monitoring_op.Names.Sequence.{numbered, next-numbered, next_of_base}
use verrazzano_monitoring_op.Nodes.{
  master_node_matcher, data_node_matcher, ingest_node_matcher, is_single_node_cluster, all_nodes,
}
use verrazzano_monitoring_op.Nodes.Matchers.{
  has_role, is_known_role, bit, matchers_by_roles, matchers_partition,
}
use verrazzano_monitoring_op.Nodes.Counts.{
  HasReplicas, total, SingleMaster, is_single_node_cluster_lem,
}
use verrazzano_monitoring_op.Storage.{init_storage_element}
use verrazzano_monitoring_op.Storage.Sizes.{
  names_for, init_storage_element-names_for, init_storage_element_idem, init_storage_element_panics,
}
use verrazzano_monitoring_op.Storage.Fresh.{numbers, Distinct, fresh_names}
use verrazzano_monitoring_op.Memory.{format_jvm_heap_size}
use verrazzano_monitoring_op.Memory.Bounds.{
  heap_count, heap_unit, bytes, letter, heap_bounds, heap_skips_a_unit,
}
use verrazzano_monitoring_op.Vmi.{ElasticsearchNode, Storage, master_role, data_role, ingest_role}
use verrazzano_monitoring_op.Examples.Inputs.{group, sized, single}

next-numbered_example :
    get_next_string_in_sequence (numbered "vmi-system-es-data" 4) ≡ numbered "vmi-system-es-data" 5
next-numbered_example = next-numbered "vmi-system-es-data" 4 (omega arith)

no_number : atoi (last_token (split "vmi-system-es-data" "-")) ≡ none
unfolding atoi split
no_number = refl

unnumbered_run : get_next_string_in_sequence "vmi-system-es-data" ≡ numbered "vmi-system-es-data" 1
unnumbered_run = next_of_base "vmi-system-es-data" no_number

abbrev mixed : ElasticsearchNode
mixed = group "n" 1 ("ingest" ∷ "data" ∷ []) none

matchers_by_roles_example :
    (master_node_matcher mixed ≡ has_role mixed master_role)
    × (data_node_matcher mixed ≡ (not (has_role mixed master_role) && has_role mixed data_role))
    × (ingest_node_matcher mixed ≡ (
        not (has_role mixed master_role || has_role mixed data_role) && has_role mixed ingest_role))
matchers_by_roles_example = matchers_by_roles mixed

matchers_partition_example :
    bit (master_node_matcher mixed)
      + bit (data_node_matcher mixed)
      + bit (ingest_node_matcher mixed)
    ≡ bit (any mixed.roles is_known_role)
matchers_partition_example = matchers_partition mixed

is_one : is_single_node_cluster single ≡ true
unfolding is_single_node_cluster add32
is_one = refl

each : All HasReplicas (all_nodes single)
unfolding all_nodes
each = omega arith

small : total (all_nodes single) < 2147483648
unfolding all_nodes
small = omega arith

is_single_node_cluster_lem_example :
    (total (all_nodes single) ≡ 1) × SingleMaster (all_nodes single)
is_single_node_cluster_lem_example = is_single_node_cluster_lem single each small is_one

abbrev data_storage : Storage
data_storage = sized ("a" ∷ [])

init_storage_element-names_for_example :
    (init_storage_element (some data_storage) (pos 3) "vmi-system-es-data"
      ≡ ok (some (record data_storage { pvc_names = names_for 3 "vmi-system-es-data" ("a" ∷ []) })))
    × (length (names_for 3 "vmi-system-es-data" ("a" ∷ [])) ≡ 3)
init_storage_element-names_for_example =
    init_storage_element-names_for data_storage 3 "vmi-system-es-data" refl

init_storage_element_idem_example :
    (init_storage_element (some data_storage) (pos 3) "vmi-system-es-data" >>= λ s'.
    init_storage_element s' (pos 3) "vmi-system-es-data")
    ≡ init_storage_element (some data_storage) (pos 3) "vmi-system-es-data"
init_storage_element_idem_example =
    init_storage_element_idem data_storage 3 "vmi-system-es-data" refl

init_storage_element_panics_example :
    init_storage_element (some data_storage) (negsuc 0) "vmi-system-es-data" ≡ panic
init_storage_element_panics_example =
    init_storage_element_panics data_storage 0 "vmi-system-es-data" refl

abbrev fresh_storage : Storage
fresh_storage = sized []

fresh_names_example :
    (init_storage_element (some fresh_storage) (pos 4) "vmi-system-es-data"
      ≡ ok (
          some (record fresh_storage {
            pvc_names = "vmi-system-es-data" ∷ numbers "vmi-system-es-data" 1 3;
          })))
    × Distinct ("vmi-system-es-data" ∷ numbers "vmi-system-es-data" 1 3)
fresh_names_example =
    fresh_names fresh_storage "vmi-system-es-data" 3 refl refl no_number (omega arith)

heap_bounds_example :
    (format_jvm_heap_size (pos 1500) ≡ digits (heap_count 1500) <> letter (heap_unit 1500))
    × (1500 ≤ heap_count 1500 * bytes (heap_unit 1500))
    × (2 * (heap_count 1500 * bytes (heap_unit 1500)) ≤ 2 * 1500 + 3 * bytes (heap_unit 1500))
heap_bounds_example = heap_bounds 1500 (omega arith)

heap_skips_a_unit_example :
    format_jvm_heap_size (pos 1074528257) ≡ digits (1074528257 / 2 ^ 20 + 2) <> "m"
heap_skips_a_unit_example = heap_skips_a_unit 1074528257 (omega arith) (omega arith) (omega arith)
