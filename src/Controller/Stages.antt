-- ===== src/Controller/Stages.antt =====
-- What a sync calls: the functions of the other files of pkg/vmo, of pkg/opensearch, of
-- pkg/opensearch_dashboards and of pkg/upgrade, behind what is asked of them.
use verrazzano_monitoring_op.Prelude.{String, ◌≡◌, refl, Bool, Option, none, some}
use verrazzano_monitoring_op.Prelude.Io.{Error, Result, ok, err, panic, pure, attempt, ◌>>=◌}
use verrazzano_monitoring_op.Prelude.Dict.{Dict}
use verrazzano_monitoring_op.Prelude.Io.Ensures.{Ensures, Ensures-pure, Ensures-bind, Ensures-any}
use verrazzano_monitoring_op.Monitor.{Monitor}
use verrazzano_monitoring_op.PvcUpdate.{PvcOutcome}
use verrazzano_monitoring_op.Server.{Client}
use verrazzano_monitoring_op.Vmi.{Vmi}

abbrev pub SameVersion : Vmi → Vmi → Type 0
SameVersion v w = w.spec.current_version ≡ v.spec.current_version

-- an operation on an instance: the instance that it leaves, and its error
pub record Operation : Type 0 where
  pub run : Vmi → Client (Vmi × Option Error)
  pub keeps : (vmo : Vmi) → Ensures (λ out. SameVersion vmo (out.0)) (run vmo)

-- the operations of a sync, none of which sets the version of the instance
pub record Stages : Type 0 where
  pub migrate_old_indices : Monitor → Vmi → Client (Monitor × Option Error)
  pub create_role_bindings : Operation
  pub create_configmaps : Operation
  pub create_services : Operation
  pub create_persistent_volume_claims : Vmi → Client PvcOutcome
  pub create_stateful_sets : Vmi → Client (Bool × Option Error)
  pub create_deployments : Option (Dict String) → Bool → Vmi → Client (Vmi × Result Bool)
  pub create_ingresses : Operation
  pub delete_default_ism_policy : Operation
  pub set_auto_expand_indices : Operation
  pub configure_ism : Operation
  pub sync_default_ism_policy : Operation
  pub create_default_index_patterns : Operation
  pub claims_keep :
      (vmo : Vmi) → Ensures (λ o. SameVersion vmo o.vmo) (create_persistent_volume_claims vmo)
  pub deployments_keep :
      (ads : Option (Dict String)) (existing_cluster : Bool) (vmo : Vmi)
      → Ensures (λ out. SameVersion vmo (out.0)) (create_deployments ads existing_cluster vmo)

-- the error of a call that is looked at
unfoldable pub error_of : {A : Type 0} → Result A → Option Error
error_of (ok a) = none
error_of (err e) = some e
error_of panic = none

-- a call that leaves the instance as it is
unfoldable pub on_instance : (Vmi → Client (Unit {0})) → Vmi → Client (Vmi × Option Error)
unfolding error_of
on_instance f vmo = attempt (f vmo) >>= λ r. pure (vmo, error_of r)

abbrev pub plain : (Vmi → Client (Unit {0})) → Operation
unfolding on_instance
plain f = record {
  run = on_instance f;
  keeps = λ vmo.
      Ensures-bind (λ r. Unit) (attempt (f vmo)) (λ r. pure (vmo, error_of r)) (Ensures-any _)
        (λ r u. Ensures-pure (vmo, error_of r) refl);
}
