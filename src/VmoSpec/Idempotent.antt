-- ===== src/VmoSpec/Idempotent.antt =====
-- `InitializeVMOSpec` (pkg/vmo/vmospec.go) as a whole.
use mathlib.Core.Path.{subst}
use verrazzano_monitoring_op.Prelude.{
  String, ◌<>◌, ◌≡◌, refl, ◌∙◌, Option, none, some, List, [], ◌∷◌, arith, eq_iff,
}
use verrazzano_monitoring_op.Prelude.Io.{ok}
use verrazzano_monitoring_op.Prelude.Dict.{insert}
use verrazzano_monitoring_op.Names.{get_meta_name}
use verrazzano_monitoring_op.Server.{Config}
use verrazzano_monitoring_op.Vmi.{Vmi, VmiSpec}
use verrazzano_monitoring_op.VmoSpec.{
  set_names, set_spec, init_storage, set_label, or_text, or_time, initialize_vmo_spec,
}
use verrazzano_monitoring_op.VmoSpec.Settled.{set_spec-eq_self, set_spec-Settled}
use verrazzano_monitoring_op.VmoSpec.Again.{
  bind_ok, ok_inj, storage_twice, storage-Settled, storage_frame,
}

or_text_twice : (s d : String) → or_text (or_text s d) d ≡ or_text s d
unfolding or_text
or_text_twice s d = ground (arith, eq_iff s "", eq_iff d "")

or_time_twice :
    (t : Option String) (now later : String) → or_time (or_time t now) later ≡ or_time t now
unfolding or_time
or_time_twice none now later = refl
or_time_twice (some t) now later = refl

insert_twice :
    (k v : String) (m : List (String × String)) → insert k v (insert k v m) ≡ insert k v m
unfolding insert
insert_twice k v [] = rw ((eq_iff k k).1 refl) refl
insert_twice k v ((j, w) ∷ m) = ground (arith, insert_twice k v m, eq_iff k k, eq_iff j k)

label_twice :
    (k v : String) (l : Option (List (String × String))) {l' : Option (List (String × String))}
    → set_label k v l ≡ ok l'
    → set_label k v l' ≡ ok l'
unfolding set_label
label_twice k v none h = cc
label_twice k v (some m) h = rw (← ok_inj h, insert_twice k v m) refl

-- the result for the parts of it that are computed
abbrev finished : Config → String → Vmi → VmiSpec → Option (List (String × String)) → Vmi
finished config now vmo spec labels =
    let named = set_names config now vmo in
    record named {
      spec = spec;
      status = record named.status { state = or_text vmo.status.state "Running" };
      labels = labels;
    }

names_stay :
    (config : Config) (now later : String) (vmo : Vmi) (spec : VmiSpec)
    (labels : Option (List (String × String)))
    → (spec.secret_name ≡ vmo.name <> "-basicauth")
      × (spec.service_type ≡ or_text vmo.spec.service_type "ClusterIP")
      × (spec.grafana.dashboards_config_map
          ≡ or_text vmo.spec.grafana.dashboards_config_map (get_meta_name vmo.name "dashboards"))
      × (spec.grafana.datasources_config_map
          ≡ or_text vmo.spec.grafana.datasources_config_map (get_meta_name vmo.name "datasource"))
    → set_names config later (finished config now vmo spec labels)
      ≡ finished config now vmo spec labels
unfolding set_names
names_stay config now later vmo spec labels (e1, e2, e3, e4) = cc (
  or_time_twice vmo.status.creation_time now later,
  or_text_twice vmo.status.env_name config.env_name,
  or_text_twice vmo.spec.service_type "ClusterIP",
  or_text_twice vmo.spec.grafana.dashboards_config_map (get_meta_name vmo.name "dashboards"),
  or_text_twice vmo.spec.grafana.datasources_config_map (get_meta_name vmo.name "datasource"),
)

set_frame :
    (config : Config) (now : String) (vmo : Vmi)
    → let spec = set_spec config (set_names config now vmo).spec in
      (spec.secret_name ≡ vmo.name <> "-basicauth")
      × (spec.service_type ≡ or_text vmo.spec.service_type "ClusterIP")
      × (spec.grafana.dashboards_config_map
          ≡ or_text vmo.spec.grafana.dashboards_config_map (get_meta_name vmo.name "dashboards"))
      × (spec.grafana.datasources_config_map
          ≡ or_text vmo.spec.grafana.datasources_config_map (get_meta_name vmo.name "datasource"))
unfolding set_spec set_names
set_frame config now vmo = (refl, refl, refl, refl)

-- an instance on which each step does nothing
fixed :
    (config : Config) (later : String) (v : Vmi)
    → set_names config later v ≡ v
    → set_spec config v.spec ≡ v.spec
    → init_storage v.name v.spec ≡ ok v.spec
    → set_label "managed-cluster-name" config.cluster_name v.labels ≡ ok v.labels
    → or_text v.status.state "Running" ≡ v.status.state
    → initialize_vmo_spec config later v ≡ ok v
unfolding initialize_vmo_spec
fixed config later v names spec storage label state = rw (names, spec, storage, label, state) refl

-- An instance that was initialised is left as it is when it is initialised again with the same
-- configuration, at any later time.
pub initialize_vmo_spec_idem :
    (config : Config) (now later : String) (vmo : Vmi) {v : Vmi}
    → initialize_vmo_spec config now vmo ≡ ok v
    → initialize_vmo_spec config later v ≡ ok v
unfolding initialize_vmo_spec set_names
initialize_vmo_spec_idem config now later vmo {v} h =
    let spec0 = set_spec config (set_names config now vmo).spec in
    let (spec, es, h1) = bind_ok (init_storage vmo.name spec0) _ h in
    let (labels, el, h2) =
      bind_ok (set_label "managed-cluster-name" config.cluster_name vmo.labels) _ h1 in
    let settled =
      storage-Settled config vmo.name spec0 es
        (set_spec-Settled config (set_names config now vmo).spec) in
    let frame = storage_frame vmo.name spec0 es in
    let g = set_frame config now vmo in
    let stay =
      names_stay config now later vmo spec labels
        (frame.0 ∙ g.0, frame.1 ∙ g.1, frame.2 ∙ g.2, frame.3 ∙ g.3) in
    subst (λ (w : Vmi). initialize_vmo_spec config later w ≡ ok w) (ok_inj h2)
      (fixed config later (finished config now vmo spec labels) stay
        (set_spec-eq_self config spec settled) (storage_twice vmo.name spec0 es)
        (label_twice "managed-cluster-name" config.cluster_name vmo.labels el)
        (or_text_twice vmo.status.state "Running"))
