-- ===== src/VmoSpec/Again.antt =====
-- Running `InitializeVMOSpec` (pkg/vmo/vmospec.go) on an instance that it has initialised.
use verrazzano_monitoring_op.Prelude.{
  String, ◌≡◌, refl, ap, ◌∙◌, inl, inr, true, false, Option, none, some, List, [], ◌∷◌, arith, ◌=ₜ◌,
  if◌then◌else◌, Bool-cases,
}
use verrazzano_monitoring_op.Prelude.Int.{ℤ, pos, negsuc}
use verrazzano_monitoring_op.Prelude.Io.{Result, ok, err, panic}
use verrazzano_monitoring_op.Prelude.Io.Fallible.{◌>>=◌}
use verrazzano_monitoring_op.Names.{get_meta_name}
use verrazzano_monitoring_op.Nodes.{data_node_matcher}
use verrazzano_monitoring_op.Server.{Config}
use verrazzano_monitoring_op.Storage.{init_storage_element}
use verrazzano_monitoring_op.Storage.Sizes.{init_storage_element_idem, init_storage_element_panics}
use verrazzano_monitoring_op.Vmi.{VmiSpec, Grafana, Storage, ElasticsearchNode}
use verrazzano_monitoring_op.VmoSpec.{init_storage, init_grafana, init_data_node, init_data_nodes}
use verrazzano_monitoring_op.VmoSpec.Settled.{Settled}

-- the first part of a chain that succeeds
pub bind_ok {ℓ} :
    {A B : Type ℓ} (first : Result A) (then_do : A → Result B) {result : B}
    → (first >>= then_do) ≡ ok result
    → (a : A) × (first ≡ ok a) × (then_do a ≡ ok result)
bind_ok panic then_do h = cc
bind_ok (err t) then_do h = cc
bind_ok (ok a) then_do h = (a, refl, h)

pub ok_inj {ℓ} : {A : Type ℓ} {a b : A} → Result.ok a ≡ ok b → a ≡ b
ok_inj h = cc

no_size_twice :
    (s : Storage) (r : ℤ) (name : String) {s' : Option Storage}
    → (s.size =ₜ "") ≡ true
    → init_storage_element (some s) r name ≡ ok s'
    → init_storage_element s' r name ≡ ok s'
unfolding init_storage_element
no_size_twice s r name e h = rw (← ok_inj (rw e at h)) (rw e refl)

sized_twice :
    (s : Storage) (r : ℤ) (name : String) {s' : Option Storage}
    → (s.size =ₜ "") ≡ false
    → init_storage_element (some s) r name ≡ ok s'
    → init_storage_element s' r name ≡ ok s'
sized_twice s (negsuc k) name e h = cc (init_storage_element_panics s k name e)
sized_twice s (pos n) name e h = rw h at (init_storage_element_idem s n name e)

pub init_storage_element_twice :
    (s : Option Storage) (r : ℤ) (name : String) {s' : Option Storage}
    → init_storage_element s r name ≡ ok s'
    → init_storage_element s' r name ≡ ok s'
unfolding init_storage_element
init_storage_element_twice none r name h = rw (← ok_inj h) refl
init_storage_element_twice (some s) r name h = elim (Bool-cases (s.size =ₜ "")) [
  | inl e ↦ no_size_twice s r name e h
  | inr e ↦ sized_twice s r name e h
]

data_node_twice :
    (vmo_name : String) (node : ElasticsearchNode) {node' : ElasticsearchNode}
    → init_data_node vmo_name node ≡ ok node'
    → (init_data_node vmo_name node' ≡ ok node')
      × (node'.name ≡ node.name)
      × (node'.roles ≡ node.roles)
unfolding init_data_node
data_node_twice vmo_name node h =
    let (s, e, f) =
      bind_ok (init_storage_element node.storage node.replicas (get_meta_name vmo_name node.name)) _
        h in
    let again =
      init_storage_element_twice node.storage node.replicas (get_meta_name vmo_name node.name) e in
    rw (← ok_inj f) (rw again refl, refl, refl)

matcher_lem :
    (a b : ElasticsearchNode) → a.roles ≡ b.roles → data_node_matcher a ≡ data_node_matcher b
unfolding data_node_matcher
matcher_lem a b h = rw h refl

data_nodes_twice :
    (vmo_name : String) (nodes : List ElasticsearchNode) {nodes' : List ElasticsearchNode}
    → init_data_nodes vmo_name nodes ≡ ok nodes'
    → init_data_nodes vmo_name nodes' ≡ ok nodes'
unfolding init_data_nodes
data_nodes_twice vmo_name [] h = rw (← ok_inj h) refl
data_nodes_twice vmo_name (node ∷ nodes) h =
    let (node', e, f) =
      bind_ok (if data_node_matcher node then init_data_node vmo_name node else ok node) _ h in
    let (nodes', e', f') = bind_ok (init_data_nodes vmo_name nodes) _ f in
    let rest = data_nodes_twice vmo_name nodes e' in
    rw (← ok_inj f') (elim (Bool-cases (data_node_matcher node)) [
      | inl t ↦
          let (again, name, roles) = data_node_twice vmo_name node (rw t at e) in
          rw (matcher_lem node' node roles, t, again, rest) refl
      | inr t ↦ rw (← ok_inj (rw t at e), t, rest) refl
    ])

stays_some :
    (s : Storage) (r : ℤ) (name : String) (s' : Option Storage)
    → init_storage_element (some s) r name ≡ ok s'
    → (t : Storage) × (s' ≡ some t)
unfolding init_storage_element
stays_some s r name none h = absurd (ground arith)
stays_some s r name (some t) h = (t, refl)

grafana_twice :
    (vmo_name : String) (g : Grafana) {g' : Grafana}
    → init_grafana vmo_name g ≡ ok g'
    → init_grafana vmo_name g' ≡ ok g'
unfolding init_grafana
grafana_twice vmo_name g {g'} h =
    let name = get_meta_name vmo_name "grafana" in
    let (s, e, f) = bind_ok (init_storage_element (some g.storage) (pos 1) name) _ h in
    let (t, same) = stays_some g.storage (pos 1) name s e in
    let again : init_storage_element (some t) (pos 1) name ≡ ok (some t) =
      init_storage_element_twice (some g.storage) (pos 1) name (e ∙ ap ok same) in
    let q : record g { storage = t } ≡ g' = ok_inj (rw same at f) in rw (← q) (rw again refl)

pub storage_twice :
    (vmo_name : String) (spec : VmiSpec) {spec' : VmiSpec}
    → init_storage vmo_name spec ≡ ok spec'
    → init_storage vmo_name spec' ≡ ok spec'
unfolding init_storage
storage_twice vmo_name spec {spec'} h =
    let (g, eg, h1) = bind_ok (init_grafana vmo_name spec.grafana) _ h in
    let (d, ed, h2) = bind_ok (init_data_node vmo_name spec.opensearch.data_node) _ h1 in
    let (n, en, h3) = bind_ok (init_data_nodes vmo_name spec.opensearch.nodes) _ h2 in
    rw (← ok_inj h3) (
      rw
        (
          grafana_twice vmo_name spec.grafana eg,
          (data_node_twice vmo_name spec.opensearch.data_node ed).0,
          data_nodes_twice vmo_name spec.opensearch.nodes en,
        )
        refl)

pub storage-Settled :
    (config : Config) (vmo_name : String) (spec : VmiSpec) {spec' : VmiSpec}
    → init_storage vmo_name spec ≡ ok spec'
    → Settled config spec
    → Settled config spec'
unfolding init_storage
storage-Settled config vmo_name spec {spec'} h s =
    let (g, eg, h1) = bind_ok (init_grafana vmo_name spec.grafana) _ h in
    let (d, ed, h2) = bind_ok (init_data_node vmo_name spec.opensearch.data_node) _ h1 in
    let (n, en, h3) = bind_ok (init_data_nodes vmo_name spec.opensearch.nodes) _ h2 in
    let (again, name, roles) = data_node_twice vmo_name spec.opensearch.data_node ed in
    rw (← ok_inj h3) (record {
      kibana = s.kibana;
      elasticsearch = s.elasticsearch;
      replicas = s.replicas;
      master = s.master;
      ingest = s.ingest;
      data_group = record {
        named = rw name s.data_group.named;
        has_role = rw roles s.data_group.has_role;
      };
    })

-- what the storage leaves alone
pub storage_frame :
    (vmo_name : String) (spec : VmiSpec) {spec' : VmiSpec}
    → init_storage vmo_name spec ≡ ok spec'
    → (spec'.secret_name ≡ spec.secret_name)
      × (spec'.service_type ≡ spec.service_type)
      × (spec'.grafana.dashboards_config_map ≡ spec.grafana.dashboards_config_map)
      × (spec'.grafana.datasources_config_map ≡ spec.grafana.datasources_config_map)
unfolding init_storage init_grafana
storage_frame vmo_name spec {spec'} h =
    let (g, eg, h1) = bind_ok (init_grafana vmo_name spec.grafana) _ h in
    let (d, ed, h2) = bind_ok (init_data_node vmo_name spec.opensearch.data_node) _ h1 in
    let (n, en, h3) = bind_ok (init_data_nodes vmo_name spec.opensearch.nodes) _ h2 in
    let (s, es, hs) =
      bind_ok
        (init_storage_element (some spec.grafana.storage) (pos 1)
          (get_meta_name vmo_name "grafana"))
        _ eg in
    rw (← ok_inj h3, ← ok_inj hs) (refl, refl, refl, refl)
