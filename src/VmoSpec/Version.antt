-- ===== src/VmoSpec/Version.antt =====
-- The version of the instance over `InitializeVMOSpec` of pkg/vmo/vmospec.go.
use verrazzano_monitoring_op.Prelude.{String, ◌≡◌, refl}
use verrazzano_monitoring_op.Prelude.Io.{ok}
use verrazzano_monitoring_op.Server.{Config}
use verrazzano_monitoring_op.Vmi.{VmiSpec, Vmi}
use verrazzano_monitoring_op.VmoSpec.Again.{bind_ok, ok_inj}
use verrazzano_monitoring_op.VmoSpec.{
  initialize_vmo_spec, init_storage, init_grafana, init_data_node, init_data_nodes, set_names,
  set_spec, set_label,
}

-- the version is no part of what the initialisation sets
stored :
    (vmo_name : String) (spec : VmiSpec) {spec' : VmiSpec}
    → init_storage vmo_name spec ≡ ok spec'
    → spec'.current_version ≡ spec.current_version
unfolding init_storage
stored vmo_name spec h =
    let (g, eg, h1) = bind_ok (init_grafana vmo_name spec.grafana) _ h in
    let (d, ed, h2) = bind_ok (init_data_node vmo_name spec.opensearch.data_node) _ h1 in
    let (n, en, h3) = bind_ok (init_data_nodes vmo_name spec.opensearch.nodes) _ h2 in
    rw (← ok_inj h3) refl

pub initialised :
    (config : Config) (now : String) (vmo : Vmi) {v : Vmi}
    → initialize_vmo_spec config now vmo ≡ ok v
    → v.spec.current_version ≡ vmo.spec.current_version
unfolding initialize_vmo_spec set_names set_spec
initialised config now vmo h =
    let spec0 = set_spec config (set_names config now vmo).spec in
    let (spec, es, h1) = bind_ok (init_storage vmo.name spec0) _ h in
    let (labels, el, h2) =
      bind_ok (set_label "managed-cluster-name" config.cluster_name vmo.labels) _ h1 in
    rw (← ok_inj h2) (stored vmo.name spec0 es)
