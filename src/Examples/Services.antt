-- ===== src/Examples/Services.antt =====
-- Objects that are made whole, and the role labels of pods.
use verrazzano_monitoring_op.Prelude.{◌≡◌, refl, true, List, [], ◌∷◌, all}
use verrazzano_monitoring_op.Prelude.Io.{ok}
use verrazzano_monitoring_op.Kube.{Labels, service}
use verrazzano_monitoring_op.Server.{
  Reply, list_pods, get_object, create_object, delete_object, list_objects,
}
use verrazzano_monitoring_op.Reconcilers.{
  create_services, set_node_role_labels, use_node_role_selector, has_role_label,
}
use verrazzano_monitoring_op.Reconcilers.RoleLabels.{
  labelled, has_known_role, role_labels_read_back,
}
use verrazzano_monitoring_op.Vmi.{NodeRole}
use verrazzano_monitoring_op.Examples.Inputs.{answer, cluster, object_of}

abbrev groups : List (List NodeRole)
groups = ("master" ∷ []) ∷ ("data" ∷ "ingest" ∷ []) ∷ []

abbrev app_label : Labels
app_label = ("app", "system-es-data") ∷ []

role_labels_read_back_example :
    use_node_role_selector (labelled app_label groups) ≡ all groups has_known_role
unfolding has_role_label
role_labels_read_back_example = role_labels_read_back app_label groups refl

selector_run : use_node_role_selector (labelled app_label groups) ≡ true
unfolding use_node_role_selector labelled set_node_role_labels
selector_run = refl

-- one service differs and is made anew, and one that is not expected is deleted
abbrev serving : Reply
serving = record (answer 200 "") {
  object = object_of "vmi-system-os";
  objects = object_of "vmi-system-os" ∷ object_of "old" ∷ [];
}

services_run :
    create_services
      (λ a b. "rest")
      (λ vmo b. ok (object_of "vmi-system-os" ∷ []))
      cluster
      (λ tr c. serving)
      []
    ≡ (
      ok tt,
      list_pods "verrazzano-system" "app in (system-es-master, system-es-data, system-os-ingest)"
          ∷ get_object service "verrazzano-system" "vmi-system-os"
          ∷ delete_object service "verrazzano-system" "vmi-system-os"
          ∷ create_object service "verrazzano-system" (object_of "vmi-system-os")
          ∷ list_objects service "verrazzano-system" (("vmo.v1.verrazzano.io", "system") ∷ [])
          ∷ delete_object service "verrazzano-system" "old"
          ∷ [],
    )
unfolding create_services
services_run = refl
