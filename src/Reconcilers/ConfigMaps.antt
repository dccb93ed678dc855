-- ===== src/Reconcilers/ConfigMaps.antt =====
-- pkg/vmo/configmap.go. The two templates are arguments: `data_sources` is the one of the data sources
-- with its names put in by text/template.
use verrazzano_monitoring_op.Prelude.{
  String, Bool, true, false, not, Option, none, some, [], ◌∷◌, ◌=ₜ◌, if◌then◌else◌,
}
use verrazzano_monitoring_op.Prelude.Io.{Error, Result, pure, raise, lift, call, ◌>>=◌, ◌>>◌}
use verrazzano_monitoring_op.Kube.{config_map, Object, Labels}
use verrazzano_monitoring_op.Migration.{wrapped, relabel, replace_first}
use verrazzano_monitoring_op.Names.{get_meta_name}
use verrazzano_monitoring_op.Prelude.Dict.{insert, lookup}
use verrazzano_monitoring_op.Server.{
  Client, ask, get_object, create_object, update_object, list_objects,
}
use verrazzano_monitoring_op.StatefulSets.{vmi_owner}
use verrazzano_monitoring_op.Vmi.{Vmi}
use verrazzano_monitoring_op.Reconcilers.{delete_unlisted, vmo_selector}

unfoldable pub new_config : Vmi → String → Labels → Object
new_config vmo map_name entries = record {
  name = map_name;
  owner_references = vmi_owner vmo ∷ [];
  entries = entries;
  rest = "";
}

abbrev prometheus_host : String
prometheus_host = "prometheus-operator-kube-p-prometheus.verrazzano-monitoring"

unless_exists : Option Error → Bool → Client (Unit {0})
unless_exists none already = pure tt
unless_exists (some e) true = pure tt
unless_exists (some e) false = raise e

unfoldable pub create_config_map_if_doesnt_exist : Vmi → String → Labels → Client (Unit {0})
unfolding new_config unless_exists
create_config_map_if_doesnt_exist vmo map_name entries =
    call (create_object config_map vmo.namespace (new_config vmo map_name entries)) >>= λ reply.
    unless_exists reply.error reply.already_exists

-- a missing map is no error
found_config_map : Option Error → Bool → Object → Client (Option Object)
found_config_map none not_found o = pure (some o)
found_config_map (some e) true o = pure none
found_config_map (some e) false o = raise e

unfoldable pub get_config_map : String → String → Client (Option Object)
unfolding found_config_map
get_config_map namespace map_name = call (get_object config_map namespace map_name) >>= λ reply.
    found_config_map reply.error reply.not_found reply.object

-- the first mention of the old Prometheus is replaced
update_data_source : Vmi → Object → Option String → Client (Unit {0})
unfolding replace_first get_meta_name insert ask
update_data_source vmo existing none = pure tt
update_data_source vmo existing (some ds) =
    let updated = replace_first ds (get_meta_name vmo.name "prometheus") prometheus_host in
    if not (updated =ₜ ds)
    then (ask (
          update_object config_map vmo.namespace
            (record existing { entries = insert "datasource.yaml" updated existing.entries }))
        >> pure tt)
    else pure tt

update_or_create : Vmi → String → Labels → Option Object → Client (Unit {0})
unfolding new_config update_data_source lookup ask
update_or_create vmo map_name entries none =
    ask (create_object config_map vmo.namespace (new_config vmo map_name entries)) >> pure tt
update_or_create vmo map_name entries (some existing) =
    update_data_source vmo existing (lookup "datasource.yaml" existing.entries)

unfoldable pub create_update_datasources_config_map : Vmi → String → Labels → Client (Unit {0})
unfolding get_config_map update_or_create
create_update_datasources_config_map vmo map_name entries = do
  existing ← get_config_map vmo.namespace map_name
  update_or_create vmo map_name entries existing

unfoldable pub create_configmaps : String → (Vmi → Result String) → Vmi → Client (Unit {0})
unfolding create_config_map_if_doesnt_exist create_update_datasources_config_map delete_unlisted
    relabel ask
create_configmaps dashboard_provider data_sources vmo = do
  let dashboards = vmo.spec.grafana.dashboards_config_map
  let datasources = vmo.spec.grafana.datasources_config_map
  wrapped "Failed to create dashboard configmap" (
      create_config_map_if_doesnt_exist vmo dashboards
        (("vmo-dashboard-provider.yml", dashboard_provider) ∷ []))
  template ←
      wrapped "Failed to create dashboard datasource template for VMI" (lift (data_sources vmo))
  wrapped "Failed to create datasource configmap"
      (create_update_datasources_config_map vmo datasources (("datasource.yaml", template) ∷ []))
  existing ← ask (list_objects config_map vmo.namespace (vmo_selector vmo))
  wrapped "Failed to delete configmap"
      (delete_unlisted config_map vmo.namespace (dashboards ∷ datasources ∷ []) existing.objects)
