-- ===== src/StorageClasses/Costs.antt =====
-- Choosing a storage class (pkg/vmo/pvc.go) only reads.
use verrazzano_monitoring_op.Prelude.{ℕ, ◌≤◌, String, Option, none, some}
use verrazzano_monitoring_op.Prelude.Io.Cost.{AtMost, AtMost-pure, AtMost-if, AtMost-bind_free}
use verrazzano_monitoring_op.Server.{Config, Call, get_storage_class}
use verrazzano_monitoring_op.Server.Costs.{AtMost-ask}
use verrazzano_monitoring_op.StorageClasses.{get_storage_class_override, get_storage_class_by_name}

module _ {weight : Call → ℕ} where
  AtMost-by_name :
      (name : String)
      → weight (get_storage_class name) ≤ 0
      → AtMost weight 0 (get_storage_class_by_name name)
  unfolding get_storage_class_by_name
  AtMost-by_name name h =
      AtMost-bind_free 0 _ _ (AtMost-ask 0 _ h) (λ reply. AtMost-pure 0 reply.storage_class)

  pub AtMost-override :
      (config : Config) (name : Option String)
      → ((class_name : String) → weight (get_storage_class class_name) ≤ 0)
      → AtMost weight 0 (get_storage_class_override config name)
  unfolding get_storage_class_override
  AtMost-override config (some name) h =
      AtMost-bind_free 0 _ _ (AtMost-by_name name (h name)) (λ c. AtMost-pure 0 (some c))
  AtMost-override config none h =
      AtMost-if 0 _ _ _
        (AtMost-bind_free 0 _ _ (AtMost-by_name _ (h _)) (λ c. AtMost-pure 0 (some c)))
        (AtMost-pure 0 none)
