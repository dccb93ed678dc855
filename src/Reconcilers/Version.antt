-- ===== src/Reconcilers/Version.antt =====
-- The version of the instance over `CreateIngresses` of pkg/vmo/ingress.go.
use verrazzano_monitoring_op.Prelude.{String, ◌≡◌, refl, inl, inr, some, List, ◌=ₜ◌, Bool-cases}
use verrazzano_monitoring_op.Prelude.Io.{Result, ok, err, panic, pure, attempt, ◌>>=◌}
use verrazzano_monitoring_op.Prelude.Io.Ensures.{Ensures, Ensures-pure, Ensures-crash, Ensures-then}
use verrazzano_monitoring_op.Kube.{Object}
use verrazzano_monitoring_op.Vmi.{Vmi}
use verrazzano_monitoring_op.Reconcilers.{
  create_ingresses, list_ingresses, after_list, with_target, error_in, apply_all, apply_ingress,
  delete_if_ended, object_names,
}

kept :
    (target : String) (vmo : Vmi)
    → (with_target target vmo).spec.current_version ≡ vmo.spec.current_version
unfolding with_target
kept target vmo = elim (Bool-cases (vmo.spec.ingress_target_dns_name =ₜ "")) [
  | inl e ↦ rw e refl
  | inr e ↦ rw e refl
]

listed :
    (diff : Object → Object → String) (target : String) (vmo : Vmi)
    (r : Result (List Object × List Object))
    → Ensures
        (λ out. out.0.spec.current_version ≡ vmo.spec.current_version)
        (after_list diff target vmo r)
unfolding after_list
listed diff target vmo (ok (existing, ingresses)) =
    Ensures-then
      (attempt (
        apply_all (apply_ingress diff vmo.namespace) ingresses
        >>= delete_if_ended vmo.namespace (object_names ingresses) existing))
      (λ r. error_in r >>= λ e. pure (with_target target vmo, e))
      (λ r.
        Ensures-then (error_in r) (λ e. pure (with_target target vmo, e))
          (λ e. Ensures-pure (with_target target vmo, e) (kept target vmo)))
listed diff target vmo (err e) = Ensures-pure (vmo, some e) refl
listed diff target vmo panic = Ensures-crash

pub ingresses_keep_version :
    (diff : Object → Object → String) (new_ingresses : Vmi → List Object → Result (List Object))
    (target : String) (vmo : Vmi)
    → Ensures
        (λ out. out.0.spec.current_version ≡ vmo.spec.current_version)
        (create_ingresses diff new_ingresses target vmo)
unfolding create_ingresses
ingresses_keep_version diff new_ingresses target vmo =
    Ensures-then (attempt (list_ingresses new_ingresses vmo)) (after_list diff target vmo)
      (listed diff target vmo)
