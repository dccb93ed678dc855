-- ===== src/Reconcilers/RoleBindings.antt =====
-- pkg/vmo/rolebindings.go and pkg/vmo/suboperator.go. `controller_ref` is `metav1.NewControllerRef`.
use verrazzano_monitoring_op.Prelude.{String, ◌<>◌, Option, none, some, List, [], ◌∷◌, ◌++◌}
use verrazzano_monitoring_op.Prelude.Io.{Error, pure, raise, call, ◌>>=◌, ◌>>◌}
use verrazzano_monitoring_op.Kube.{role_binding, Object, OwnerReference, Deployment}
use verrazzano_monitoring_op.Names.{get_meta_name}
use verrazzano_monitoring_op.Server.{
  Client, ask, get_object, list_objects, get_cluster_role, list_deployments,
}
use verrazzano_monitoring_op.StatefulSets.{vmi_owner}
use verrazzano_monitoring_op.Vmi.{Vmi}
use verrazzano_monitoring_op.Reconcilers.{apply_object, delete_unlisted, object_names, vmo_selector}

-- `namespace` is the controller's
found_or_default : String → Option Error → Object → Client String
found_or_default prefix none role = pure role.name
found_or_default prefix (some e) role =
    call (get_cluster_role (prefix <> "-default")) >>= λ reply. or_missing reply.error reply.object
  where
    or_missing : Option Error → Object → Client String
    or_missing none r = pure r.name
    or_missing (some x) r = raise "unable to find a valid ClusterRole to assign to VMO instances"

unfoldable pub find_cluster_role : String → String → Client String
unfolding found_or_default
find_cluster_role prefix namespace =
    call (get_cluster_role (prefix <> "-" <> namespace)) >>= λ reply.
    found_or_default prefix reply.error reply.object

-- the rest of the binding is the name of its role
unfoldable pub new_role_bindings : String → Vmi → Client (List Object)
unfolding find_cluster_role get_meta_name
new_role_bindings namespace vmo = do
  role ← find_cluster_role "vmi-cluster-role" namespace
  pure (
      record {
        name = get_meta_name vmo.name "verrazzano-monitoring-operator";
        owner_references = vmi_owner vmo ∷ [];
        entries = [];
        rest = role;
      }
      ∷ [])

module _ (controller_ref : Deployment → OwnerReference) where
  first_owner : List Deployment → List OwnerReference
  first_owner [] = []
  first_owner (d ∷ ds) = controller_ref d ∷ []

  unfoldable pub get_hyper_operator_owner_references : String → Client (List OwnerReference)
  unfolding first_owner
  get_hyper_operator_owner_references namespace =
      call (
        list_deployments namespace
          (("k8s-app", "verrazzano-monitoring-operator") ∷ ("hyper-mode", "true") ∷ []))
      >>= λ reply. pure (first_owner reply.deployments)

owned : List OwnerReference → List Object → List Object
owned references [] = []
owned references (o ∷ os) = record o { owner_references = references } ∷ owned references os

apply_bindings : (Object → Client (Unit {0})) → List Object → Client (Unit {0})
apply_bindings apply [] = pure tt
apply_bindings apply (o ∷ os) = apply o >> apply_bindings apply os

-- the binding under its old name is to be removed too
with_old : List Object → Option Error → Object → List Object
with_old existing none old = existing ++ old ∷ []
with_old existing (some e) old = existing

unfoldable pub create_role_bindings :
    (Deployment → OwnerReference) → (Object → Object → String) → String → Vmi → Client (Unit {0})
unfolding new_role_bindings get_hyper_operator_owner_references owned apply_bindings apply_object
    with_old delete_unlisted object_names ask
create_role_bindings controller_ref diff namespace vmo = do
  bindings ← new_role_bindings namespace vmo
  references ← get_hyper_operator_owner_references controller_ref namespace
  apply_bindings (apply_object diff role_binding vmo.namespace) (owned references bindings)
  existing ← ask (list_objects role_binding vmo.namespace (vmo_selector vmo))
  old ← call (get_object role_binding vmo.namespace "vmo-instance-role-binding")
  delete_unlisted role_binding vmo.namespace (object_names bindings)
      (with_old existing.objects old.error old.object)
