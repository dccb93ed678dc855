-- ===== src/Reconcilers.antt =====
-- The objects that are made whole: pkg/vmo/service.go, ingress.go, rolebindings.go and configmap.go,
-- and the role labels of pkg/resources/nodes/nodes.go that pkg/resources/services/elasticsearch.go
-- reads. `diff` is `diff.Diff`; the builders `services.New` and `ingresses.New` are arguments.

pub mod RoleBindings
pub mod ConfigMaps
pub mod RoleLabels
pub mod Version
use verrazzano_monitoring_op.Prelude.{
  String, ◌<>◌, Bool, true, false, not, ◌||◌, Option, none, some, List, [], ◌∷◌, ◌=ₜ◌,
  if◌then◌else◌, any, all,
}
use verrazzano_monitoring_op.Prelude.Io.{
  Error, Result, ok, err, panic, pure, raise, crash, lift, attempt, call, ◌>>=◌, ◌>>◌,
}
use verrazzano_monitoring_op.Kube.{Kind, service, ingress, Object, Labels}
use verrazzano_monitoring_op.Prelude.Dict.{insert, has_key}
use verrazzano_monitoring_op.Server.{
  Client, ask, get_object, list_objects, create_object, update_object, delete_object, list_pods,
}
use verrazzano_monitoring_op.Vmi.{Vmi, NodeRole, master_role, data_role, ingest_role}

unfoldable pub get_role_label : NodeRole → String
get_role_label role = "opensearch.verrazzano.io/role-" <> role

-- `SetNodeRoleLabels`, over the roles of the node
unfoldable pub set_node_role_labels : List NodeRole → Labels → Labels
unfolding get_role_label insert
set_node_role_labels [] labels = labels
set_node_role_labels (role ∷ roles) labels =
    set_node_role_labels roles (insert (get_role_label role) "true" labels)

unfoldable pub has_role_label : Labels → Bool
unfolding get_role_label has_key
has_role_label labels =
    has_key (get_role_label data_role) labels
    || has_key (get_role_label ingest_role) labels
    || has_key (get_role_label master_role) labels

unfoldable pub use_node_role_selector : List Labels → Bool
unfolding has_role_label all
use_node_role_selector pods = all pods has_role_label

unfoldable pub open_search_pod_selector : String → String
open_search_pod_selector vmo_name =
    "app in (" <> vmo_name <> "-es-master, " <> vmo_name <> "-es-data, " <> vmo_name
    <> "-os-ingest)"

unfoldable pub cluster_has_node_role_selectors : Vmi → Client Bool
unfolding use_node_role_selector open_search_pod_selector ask
cluster_has_node_role_selectors vmo = do
  pods ← ask (list_pods vmo.namespace (open_search_pod_selector vmo.name))
  pure (use_node_role_selector pods.pod_labels)

unfoldable pub object_names : List Object → List String
object_names [] = []
object_names (o ∷ os) = o.name ∷ object_names os

abbrev pub vmo_selector : Vmi → Labels
vmo_selector vmo = ("vmo.v1.verrazzano.io", vmo.name) ∷ []

-- the loop that deletes what should not exist
unfoldable pub delete_unlisted : Kind → String → List String → List Object → Client (Unit {0})
unfolding any ask
delete_unlisted kind namespace names [] = pure tt
delete_unlisted kind namespace names (o ∷ os) = do
  if not (any names (λ name. name =ₜ o.name))
      then (ask (delete_object kind namespace o.name) >> pure tt)
      else pure tt
  delete_unlisted kind namespace names os

-- an object that is to be replaced is deleted first, whatever comes of it
replace_object : Kind → String → Object → Client (Unit {0})
unfolding ask
replace_object kind namespace o = do
  attempt (ask (delete_object kind namespace o.name))
  ask (create_object kind namespace o)
  pure tt

module _ (diff : Object → Object → String) where
  -- a service or a role binding: the lister's error is not looked at
  apply_found_object : Kind → String → Object → Option Error → Object → Client (Unit {0})
  unfolding replace_object ask
  apply_found_object kind namespace cur none existing =
      if diff existing cur =ₜ "" then pure tt else replace_object kind namespace cur
  apply_found_object kind namespace cur (some e) existing =
      ask (create_object kind namespace cur) >> pure tt

  unfoldable pub apply_object : Kind → String → Object → Client (Unit {0})
  unfolding apply_found_object
  apply_object kind namespace cur = call (get_object kind namespace cur.name) >>= λ reply.
      apply_found_object kind namespace cur reply.error reply.object

  -- an ingress is updated in place, and an error other than a missing object is returned
  apply_found_ingress : String → Object → Option Error → Bool → Object → Client (Unit {0})
  unfolding ask
  apply_found_ingress namespace cur none not_found existing =
      if diff existing cur =ₜ ""
      then pure tt
      else (ask (update_object ingress namespace cur) >> pure tt)
  apply_found_ingress namespace cur (some e) true existing =
      ask (create_object ingress namespace cur) >> pure tt
  apply_found_ingress namespace cur (some e) false existing = raise e

  unfoldable pub apply_ingress : String → Object → Client (Unit {0})
  unfolding apply_found_ingress
  apply_ingress namespace cur = call (get_object ingress namespace cur.name) >>= λ reply.
      apply_found_ingress namespace cur reply.error reply.not_found reply.object

-- the loop over the expected objects: whether it came to its end, or met one without a name
unfoldable pub apply_all : (Object → Client (Unit {0})) → List Object → Client Bool
apply_all apply [] = pure true
apply_all apply (cur ∷ objects) =
    if cur.name =ₜ "" then pure false else (apply cur >> apply_all apply objects)

unfoldable pub clean_up : Kind → Vmi → List String → Bool → Client (Unit {0})
unfolding delete_unlisted ask
clean_up kind vmo names false = pure tt
clean_up kind vmo names true = do
  existing ← ask (list_objects kind vmo.namespace (vmo_selector vmo))
  delete_unlisted kind vmo.namespace names existing.objects

unfoldable pub create_services :
    (Object → Object → String) → (Vmi → Bool → Result (List Object)) → Vmi → Client (Unit {0})
unfolding cluster_has_node_role_selectors apply_object apply_all clean_up object_names
create_services diff new_services vmo = do
  use_node_role_selectors ← cluster_has_node_role_selectors vmo
  services ← lift (new_services vmo use_node_role_selectors)
  ended ← apply_all (apply_object diff service vmo.namespace) services
  clean_up service vmo (object_names services) ended

-- what follows the list of ingresses: the instance gets the default target first
delete_if_ended : String → List String → List Object → Bool → Client (Unit {0})
unfolding delete_unlisted
delete_if_ended namespace names existing false = pure tt
delete_if_ended namespace names existing true = delete_unlisted ingress namespace names existing

with_target : String → Vmi → Vmi
with_target target vmo =
    if vmo.spec.ingress_target_dns_name =ₜ ""
    then record vmo { spec = record vmo.spec { ingress_target_dns_name = target } }
    else vmo

error_in : {A : Type 0} → Result A → Client (Option Error)
error_in (ok a) = pure none
error_in (err e) = pure (some e)
error_in panic = crash

-- what follows the list of the ingresses, and those that are expected
after_list :
    (Object → Object → String)
    → String
    → Vmi
    → Result (List Object × List Object)
    → Client (Vmi × Option Error)
unfolding apply_ingress apply_all delete_if_ended object_names with_target error_in
after_list diff target vmo (ok (existing, ingresses)) =
    attempt (
      apply_all (apply_ingress diff vmo.namespace) ingresses
      >>= delete_if_ended vmo.namespace (object_names ingresses) existing)
    >>= λ r. error_in r >>= λ e. pure (with_target target vmo, e)
after_list diff target vmo (err e) = pure (vmo, some e)
after_list diff target vmo panic = crash

-- the ingresses that exist, and those that are expected
list_ingresses :
    (Vmi → List Object → Result (List Object)) → Vmi → Client (List Object × List Object)
unfolding ask
list_ingresses new_ingresses vmo = do
  existing ← ask (list_objects ingress vmo.namespace (vmo_selector vmo))
  ingresses ← lift (new_ingresses vmo existing.objects)
  pure (existing.objects, ingresses)

-- the instance that it leaves, and its error
unfoldable pub create_ingresses :
    (Object → Object → String)
    → (Vmi → List Object → Result (List Object))
    → String
    → Vmi
    → Client (Vmi × Option Error)
unfolding list_ingresses after_list
create_ingresses diff new_ingresses target vmo =
    attempt (list_ingresses new_ingresses vmo) >>= after_list diff target vmo
