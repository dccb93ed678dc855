-- ===== src/Controller/Sync.antt =====
-- `syncHandlerStandardMode` of pkg/vmo/controller.go, and the functions above it. `diff_vmi` is
-- `diff.Diff` at two instances, `hash` is the method `Hash`, and `split_key` splits a key of the queue.
use verrazzano_monitoring_op.Prelude.{
  ℕ, String, Bool, true, false, not, ◌&&◌, Option, none, some, List, [], ◌∷◌, ltb, ◌=ₜ◌,
  if◌then◌else◌, any,
}
use verrazzano_monitoring_op.Prelude.Io.{
  Error, Result, ok, err, panic, pure, crash, lift, attempt, ◌>>=◌,
}
use verrazzano_monitoring_op.Prelude.Dict.{Dict}
use verrazzano_monitoring_op.Monitor.{Monitor}
use verrazzano_monitoring_op.Server.{
  Config, Client, Reply, ask, get_secret, get_vmi, update_vmi, list_crds,
}
use verrazzano_monitoring_op.Vmi.{Vmi}
use verrazzano_monitoring_op.VmoSpec.{initialize_vmo_spec}
use verrazzano_monitoring_op.Controller.Stages.{Stages, Operation, error_of}

-- the state of a controller that a sync reads or changes
pub record Controller : Type 0 where
  pub config : Config  -- with the name of the cluster from `clusterInfo`
  pub build_version : String
  pub watch_vmi : String
  pub monitor : Monitor

-- the local variables of a sync, with the instance and the controller
pub record State : Type 0 where
  pub controller : Controller
  pub vmo : Vmi
  pub error_observed : Bool
  pub pvc_to_ad : Option (Dict String)
  pub existing_cluster : Bool
  pub deployments_dirty : Bool

-- `if err != nil { errorObserved = true }`
abbrev pub observed : Bool → Option Error → Bool
observed b none = b
observed b (some e) = true

abbrev pub start : Controller → Vmi → State
start c vmo = record {
  controller = c;
  vmo = vmo;
  error_observed = false;
  pvc_to_ad = none;
  existing_cluster = false;
  deployments_dirty = false;
}

-- the name of the cluster, where its secret is there
unfoldable pub populate_cluster_info : Controller → Result Reply → Controller
populate_cluster_info c (ok reply) = record c {
  config = record c.config { cluster_name = reply.text };
}
populate_cluster_info c (err e) = c
populate_cluster_info c panic = c

unfoldable pub observe : Operation → State → Client State
observe o s = o.run s.vmo >>= λ out.
    pure (record s { vmo = out.0; error_observed = observed s.error_observed out.1 })

unfoldable pub dirty_of : Result Bool → Bool
dirty_of (ok b) = b
dirty_of (err e) = false
dirty_of panic = false

-- in the order of the code
pub data Statement : Type 0 where
  migrate : Statement
  role_bindings : Statement
  configmaps : Statement
  services : Statement
  claims : Statement
  stateful_sets : Statement
  deployments : Statement
  ingresses : Statement
  update_instance : Statement
  auto_expand : Statement
  ism : Statement
  default_ism : Statement
  index_patterns : Statement

abbrev pub statements : List Statement
statements =
    migrate ∷ role_bindings ∷ configmaps ∷ services ∷ claims ∷ stateful_sets ∷ deployments
    ∷ ingresses ∷ update_instance ∷ auto_expand ∷ ism ∷ default_ism ∷ index_patterns ∷ []

module _ (stages : Stages) (diff_vmi : Vmi → Vmi → String) (hash : Vmi → Result ℕ) where
  unfoldable pub migrate_step : State → Client State
  migrate_step s = stages.migrate_old_indices s.controller.monitor s.vmo >>= λ out. pure (record s {
    controller = record s.controller { monitor = out.0 };
    error_observed = observed s.error_observed out.1;
  })

  unfoldable pub claims_step : State → Client State
  claims_step s = stages.create_persistent_volume_claims s.vmo >>= λ out. pure (record s {
    vmo = out.vmo;
    pvc_to_ad = out.pvc_to_ad;
    error_observed = observed s.error_observed out.error;
  })

  unfoldable pub sets_step : State → Client State
  sets_step s = stages.create_stateful_sets s.vmo >>= λ out.
      pure (record s { existing_cluster = out.0; error_observed = observed s.error_observed out.1 })

  unfoldable pub deployments_step : State → Client State
  unfolding dirty_of error_of
  deployments_step s =
      if not s.error_observed
      then (stages.create_deployments s.pvc_to_ad s.existing_cluster s.vmo >>= λ out.
          pure (record s {
            vmo = out.0;
            deployments_dirty = dirty_of out.1;
            error_observed = observed s.error_observed (error_of out.1);
          }))
      else pure s

  -- the instance is written where it changed, and the default policies are removed meanwhile
  unfoldable pub update_step : Vmi → State → Client State
  unfolding observe ask error_of
  update_step original s =
      if diff_vmi original s.vmo =ₜ ""
      then pure s
      else (attempt (ask (update_vmi s.vmo.namespace s.vmo)) >>= λ r.
          observe stages.delete_default_ism_policy
            (record s { error_observed = observed s.error_observed (error_of r) }))

  unfoldable pub patterns_step : State → Client State
  unfolding observe
  patterns_step s =
      if s.vmo.spec.opensearch_dashboards.enabled && s.vmo.spec.opensearch.enabled
      then observe stages.create_default_index_patterns s
      else pure s

  unfoldable pub perform : Vmi → Statement → State → Client State
  unfolding migrate_step observe claims_step sets_step deployments_step update_step patterns_step
  perform original migrate = migrate_step
  perform original role_bindings = observe stages.create_role_bindings
  perform original configmaps = observe stages.create_configmaps
  perform original services = observe stages.create_services
  perform original claims = claims_step
  perform original stateful_sets = sets_step
  perform original deployments = deployments_step
  perform original ingresses = observe stages.create_ingresses
  perform original update_instance = update_step original
  perform original auto_expand = observe stages.set_auto_expand_indices
  perform original ism = observe stages.configure_ism
  perform original default_ism = observe stages.sync_default_ism_policy
  perform original index_patterns = patterns_step

  unfoldable pub perform_all : Vmi → List Statement → State → Client State
  unfolding perform
  perform_all original [] s = pure s
  perform_all original (x ∷ xs) s = perform original x s >>= λ s'. perform_all original xs s'

  -- the version of the instance, once a sync neither failed nor changed a deployment
  unfoldable pub advance_version : State → Client State
  unfolding ask
  advance_version s =
      let version = s.controller.build_version in
      let vmo = record s.vmo { spec = record s.vmo.spec { current_version = version } } in
      if not s.error_observed
        && not s.deployments_dirty
        && not (version =ₜ "")
        && not (s.vmo.spec.current_version =ₜ version)
      then (attempt (ask (update_vmi s.vmo.namespace vmo)) >>= λ r. pure (record s { vmo = vmo }))
      else pure s

  unfoldable pub hash_of : Result ℕ → Client ℕ
  hash_of (ok h) = pure h
  hash_of (err e) = pure 0
  hash_of panic = crash

  unfoldable pub set_hash : State → Client State
  unfolding hash_of
  set_hash s = hash_of (hash s.vmo) >>= λ h.
      pure (record s { vmo = record s.vmo { status = record s.vmo.status { hash = h } } })

  unfoldable pub sync_unlocked : String → Vmi → Controller → Client State
  unfolding perform_all advance_version set_hash
  sync_unlocked now vmo c = do
    initialised ← lift (initialize_vmo_spec c.config now vmo)
    s ← perform_all vmo statements (start c initialised)
    s' ← advance_version s
    set_hash s'

  -- the error that it returns is nil but for the metrics: what it observed is in the state
  unfoldable pub sync_handler_standard_mode : String → Controller → Vmi → Client State
  unfolding populate_cluster_info sync_unlocked ask
  sync_handler_standard_mode now c0 vmo =
      attempt (ask (get_secret "verrazzano-system" "verrazzano-cluster-registration")) >>= λ r.
      if vmo.spec.lock
      then pure (start (populate_cluster_info c0 r) vmo)
      else sync_unlocked now vmo (populate_cluster_info c0 r)

  module _ (split_key : String → Result (String × String)) where
    unfoldable pub sync_handler : String → String → Controller → Client Controller
    unfolding sync_handler_standard_mode ask
    sync_handler now key c = do
      name ← lift (split_key key)
      if not (c.watch_vmi =ₜ "") && not (c.watch_vmi =ₜ name.1) then pure c else (do
        reply ← ask (get_vmi name.0 name.1)
        s ← sync_handler_standard_mode now c reply.vmi
        pure s.controller)

    -- an item of the queue: a key, or something else; and whether the item is forgotten
    forgotten : Controller → Result Controller → Client (Controller × Bool)
    forgotten c (ok c') = pure (c', true)
    forgotten c (err e) = pure (c, false)
    forgotten c panic = crash

    unfoldable pub process_next_work_item :
        String → Option String → Controller → Client (Controller × Bool)
    unfolding sync_handler forgotten
    process_next_work_item now none c = pure (c, true)
    process_next_work_item now (some key) c = attempt (sync_handler now key c) >>= forgotten c

crd_exists : Result Reply → Client Bool
unfolding any
crd_exists (ok reply) =
    pure (any reply.names (λ name. name =ₜ "verrazzanomonitoringinstances.verrazzano.io"))
crd_exists (err e) = pure false
crd_exists panic = crash

-- `waited` is the time since the last enqueueing, in nanoseconds
unfoldable pub is_healthy : ℕ → ℕ → Client Bool
unfolding crd_exists ask
is_healthy queue_len waited =
    if ltb 0 queue_len && ltb 60000000000 waited
    then pure false
    else (attempt (ask list_crds) >>= crd_exists)
