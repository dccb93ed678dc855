-- ===== src/Examples/Syncs.antt =====
-- Syncs of the controller.
use verrazzano_monitoring_op.Prelude.{◌∷◌, inl, inr, String, ◌≡◌, refl, false, none, some, List, []}
use verrazzano_monitoring_op.Prelude.Io.{Result, ok, err, panic, pure, raise}
use verrazzano_monitoring_op.Prelude.Io.Ensures.{Ensures-pure, returned}
use verrazzano_monitoring_op.Monitor.{new_monitor}
use verrazzano_monitoring_op.Server.{Call, Client, Reply, get_secret}
use verrazzano_monitoring_op.Prelude.Int.{pos}
use verrazzano_monitoring_op.Vmi.{Vmi}
use verrazzano_monitoring_op.Storage.{init_storage_element}
use verrazzano_monitoring_op.VmoSpec.{
  initialize_vmo_spec, init_storage, set_spec, set_names, set_label,
}
use verrazzano_monitoring_op.Controller.Stages.{Stages, Operation, SameVersion, plain, on_instance}
use verrazzano_monitoring_op.Controller.Sync.{
  Controller, State, start, statements, perform, populate_cluster_info, sync_handler_standard_mode,
  is_healthy,
}
use verrazzano_monitoring_op.Controller.Operator.{operator_stages}
use verrazzano_monitoring_op.Controller.Version.{version_waits}
use verrazzano_monitoring_op.Controller.Hindered.{Hindered}
use verrazzano_monitoring_op.Examples.Inputs.{settings, answer, cluster}

abbrev calm : Operation
calm = plain (λ vmo. pure tt)

abbrev failing : Operation
failing = plain (λ vmo. raise "refused")

-- stages that do nothing, but for the one that creates services
abbrev stages_with : Operation → Stages
stages_with create_services = record {
  migrate_old_indices = λ m vmo. pure (m, none);
  create_role_bindings = calm;
  create_configmaps = calm;
  create_services = create_services;
  create_persistent_volume_claims =
      λ vmo. pure (record { pvc_to_ad = some []; error = none; vmo = vmo });
  create_stateful_sets = λ vmo. pure (false, none);
  create_deployments = λ ads existing_cluster vmo. pure (vmo, ok false);
  create_ingresses = calm;
  delete_default_ism_policy = calm;
  set_auto_expand_indices = calm;
  configure_ism = calm;
  sync_default_ism_policy = calm;
  create_default_index_patterns = calm;
  claims_keep = λ vmo. Ensures-pure _ refl;
  deployments_keep = λ ads existing_cluster vmo. Ensures-pure (vmo, ok false) refl;
}

abbrev operator : Controller
operator = record {
  config = settings;
  build_version = "2.0";
  watch_vmi = "";
  monitor = new_monitor;
}

-- the stages of the operator, where nothing is to be created and all requests are refused
abbrev stages : Stages
stages =
    operator_stages settings [] (λ d. record { api_version = ""; kind = ""; name = ""; uid = "" })
      "verrazzano-system" (λ a b. "") "" (λ vmo. ok "") (λ vmo old. ok []) (λ vmo old. ok []) ""
      (λ s. ok (pos 0)) (λ a b. "") (λ sets. sets) (λ vmo class name. ok []) (λ a b. "")
      (λ ads vmo. ok ([], 0)) (λ vmo. none) (λ a b. "") (λ a b. "") (λ p. ok "")
      (λ s. err "no file") [] (λ patterns. ok "") 1

abbrev refusing : List Call → Call → Reply
refusing tr c = record (answer 500 "") { error = some "refused" }

abbrev sync_stages : Client State
sync_stages = sync_handler_standard_mode stages (λ v w. "spec") (λ v. ok 7) "now" operator cluster

version_of : Result State × List Call → String
version_of (ok s, tr) = s.vmo.spec.current_version
version_of (err e, tr) = e
version_of (panic, tr) = "panic"

initial : Vmi
unfolding initialize_vmo_spec init_storage init_storage_element set_spec set_names set_label
initial = returned cluster (initialize_vmo_spec settings "now" cluster)

final : State
unfolding sync_handler_standard_mode initialize_vmo_spec on_instance init_storage
    init_storage_element set_spec set_names set_label operator_stages
final = returned (start operator cluster) (sync_stages refusing []).0

hindered :
    Hindered stages
      (λ v w. "spec")
      (λ v. ok 7)
      cluster
      statements
      (start operator initial)
      refusing
      (get_secret "verrazzano-system" "verrazzano-cluster-registration" ∷ [])
unfolding perform on_instance operator_stages initial initialize_vmo_spec init_storage
    init_storage_element set_spec set_names set_label
hindered = inr (start operator initial, _, refl, inl (inl refl))

-- the creation of the role bindings fails
version_waits_example : SameVersion cluster final.vmo
unfolding final initial sync_handler_standard_mode initialize_vmo_spec on_instance init_storage
    init_storage_element set_spec set_names set_label operator_stages populate_cluster_info
version_waits_example =
    version_waits stages (λ v w. "spec") (λ v. ok 7) "now" operator cluster refusing []
      (get_secret "verrazzano-system" "verrazzano-cluster-registration" ∷ []) (err "refused")
      initial final refl refl refl hindered refl

-- a calm sync advances the version, one that fails to create the services does not
version_run :
    version_of (
      sync_handler_standard_mode
        (stages_with calm)
        (λ v w. "spec")
        (λ v. ok 7)
        "now"
        operator
        cluster
        (λ tr c. answer 200 "")
        [])
    ≡ "2.0"
unfolding version_of sync_handler_standard_mode initialize_vmo_spec on_instance init_storage
    init_storage_element set_spec set_names set_label
version_run = refl

failing_run :
    version_of (
      sync_handler_standard_mode
        (stages_with failing)
        (λ v w. "spec")
        (λ v. ok 7)
        "now"
        operator
        cluster
        (λ tr c. answer 200 "")
        [])
    ≡ ""
unfolding version_of sync_handler_standard_mode initialize_vmo_spec on_instance init_storage
    init_storage_element set_spec set_names set_label
failing_run = refl

unhealthy_run : (is_healthy 1 61000000000 (λ tr c. answer 200 "") []).0 ≡ ok false
unfolding is_healthy
unhealthy_run = refl
