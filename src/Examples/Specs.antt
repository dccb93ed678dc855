-- ===== src/Examples/Specs.antt =====
-- Instances that are initialised.
use verrazzano_monitoring_op.Prelude.{◌≡◌, refl}
use verrazzano_monitoring_op.Prelude.Io.{Result, ok, err, panic}
use verrazzano_monitoring_op.Vmi.{Vmi}
use verrazzano_monitoring_op.Storage.{init_storage_element}
use verrazzano_monitoring_op.VmoSpec.{
  initialize_vmo_spec, init_storage, set_spec, set_names, set_label,
}
use verrazzano_monitoring_op.VmoSpec.Idempotent.{initialize_vmo_spec_idem}
use verrazzano_monitoring_op.Examples.Inputs.{cluster, settings}

abbrev result_of : Vmi → Result Vmi → Vmi
result_of d (ok v) = v
result_of d (err e) = d
result_of d panic = d

initialized :
    initialize_vmo_spec settings "now" cluster
    ≡ ok (result_of cluster (initialize_vmo_spec settings "now" cluster))
unfolding initialize_vmo_spec init_storage init_storage_element set_spec set_names set_label
initialized = refl

initialize_vmo_spec_idem_example :
    initialize_vmo_spec settings "later"
      (result_of cluster (initialize_vmo_spec settings "now" cluster))
    ≡ ok (result_of cluster (initialize_vmo_spec settings "now" cluster))
initialize_vmo_spec_idem_example =
    initialize_vmo_spec_idem settings "now" "later" cluster initialized
