-- ===== src/Controller/Operator.antt =====
-- The stages of a sync as the operator has them, from the functions that the other modules model. Their
-- parameters are those of the modules; `namespace` is the controller's.
use verrazzano_monitoring_op.Prelude.{
  ℕ, String, refl, Bool, true, not, Option, none, some, List, map, if◌then◌else◌,
}
use verrazzano_monitoring_op.Prelude.Int.{ℤ}
use verrazzano_monitoring_op.Prelude.Io.{Error, Result, pure, raise, lift, attempt, ◌>>=◌}
use verrazzano_monitoring_op.Prelude.Dict.{Dict}
use verrazzano_monitoring_op.Prelude.Io.Ensures.{Ensures-pure, Ensures-then}
use verrazzano_monitoring_op.Dashboards.{
  get_open_search_dashboards_http_endpoint, create_default_index_patterns,
}
use verrazzano_monitoring_op.Deployments.{create_deployments}
use verrazzano_monitoring_op.Health.{is_open_search_ready}
use verrazzano_monitoring_op.Ism.{configure_ism}
use verrazzano_monitoring_op.Ism.Defaults.{
  delete_default_ism_policy, sync_default_ism_policy, set_auto_expand_indices,
}
use verrazzano_monitoring_op.Kube.{Object, OwnerReference, StatefulSet, Deployment, StorageClass}
use verrazzano_monitoring_op.Monitor
use verrazzano_monitoring_op.Reconcilers.{create_services, create_ingresses}
use verrazzano_monitoring_op.Reconcilers.RoleBindings.{create_role_bindings}
use verrazzano_monitoring_op.Reconcilers.ConfigMaps.{create_configmaps}
use verrazzano_monitoring_op.Reconcilers.Version.{ingresses_keep_version}
use verrazzano_monitoring_op.Policy.{IsmPolicy, PolicyState, IsmTemplate}
use verrazzano_monitoring_op.PvcUpdate.{create_persistent_volume_claims}
use verrazzano_monitoring_op.PvcUpdate.Version.{claims_keep_version}
use verrazzano_monitoring_op.SavedObject.{SavedObjectType}
use verrazzano_monitoring_op.Server.{Config, Client}
use verrazzano_monitoring_op.StatefulSets.{create_stateful_sets}
use verrazzano_monitoring_op.Vmi.{Vmi}
use verrazzano_monitoring_op.Controller.Stages.{Stages, plain}

-- the goroutine of the migration is the monitor's worker
unfoldable pub migrate_stage : Monitor.Monitor → Vmi → Client (Monitor.Monitor × Option Error)
unfolding Monitor.migrate_old_indices is_open_search_ready
migrate_stage m vmo =
    if not vmo.spec.opensearch.enabled
    then pure (m, none)
    else (is_open_search_ready vmo >>= λ ready. lift (Monitor.migrate_old_indices true ready m))

-- a loop over the pages that is not left counts as a failure
left_loop : Option (Unit {0}) → Client (Unit {0})
left_loop none = raise "the loop over the pages was not left"
left_loop (some u) = pure tt

-- what is written once the instance has the addresses of the NAT gateways
with_gateways : List String → Vmi → Vmi
with_gateways ips vmo = record vmo { spec = record vmo.spec { nat_gateway_ips = ips } }

module _ (config : Config) (nat_gateway_ips : List String)
    (controller_ref : Deployment → OwnerReference) (namespace : String)
    (diff_objects : Object → Object → String) (dashboard_provider : String)
    (data_sources : Vmi → Result String) (new_services : Vmi → Bool → Result (List Object))
    (new_ingresses : Vmi → List Object → Result (List Object)) (default_target : String)
    (parse_quantity : String → Result ℤ) (diff_sets : StatefulSet → StatefulSet → String)
    (order : Dict StatefulSet → Dict StatefulSet)
    (new_sets : Vmi → Option StorageClass → String → Result (List StatefulSet))
    (diff_deployments : Deployment → Deployment → String)
    (new_deployments : Option (Dict String) → Vmi → Result (List Deployment × ℕ))
    (dashboards_of : Vmi → Option Deployment)
    (diff_states : List PolicyState → List PolicyState → String)
    (diff_templates : List IsmTemplate → List IsmTemplate → String)
    (serialize : IsmPolicy → Result String) (load : String → Result IsmPolicy)
    (policies : List (String × String)) (serialize_patterns : List SavedObjectType → Result String)
    (rounds : ℕ) where
  -- `CreateDeployments` sets the addresses first
  deployments_stage : Option (Dict String) → Bool → Vmi → Client (Vmi × Result Bool)
  unfolding create_deployments with_gateways
  deployments_stage ads existing_cluster vmo =
      let vmo' = with_gateways nat_gateway_ips vmo in
      attempt (
        create_deployments diff_deployments (new_deployments ads) dashboards_of config vmo'
          existing_cluster)
      >>= λ r. pure (vmo', r)

  -- the error of the policies that the goroutine sends
  delete_policies_stage : Vmi → Client (Vmi × Option Error)
  unfolding delete_default_ism_policy
  delete_policies_stage vmo =
      delete_default_ism_policy config (map (λ (p : String × String). p.0) policies) vmo >>= λ e.
      pure (vmo, e)

  patterns_stage : Vmi → Client (Unit {0})
  unfolding create_default_index_patterns get_open_search_dashboards_http_endpoint left_loop
  patterns_stage vmo =
      create_default_index_patterns serialize_patterns rounds config
        (get_open_search_dashboards_http_endpoint config vmo)
      >>= left_loop

  unfoldable pub operator_stages : Stages
  unfolding migrate_stage create_persistent_volume_claims create_stateful_sets deployments_stage
      delete_policies_stage patterns_stage set_auto_expand_indices configure_ism
      sync_default_ism_policy with_gateways create_role_bindings create_configmaps create_services
      create_ingresses
  operator_stages = record {
    migrate_old_indices = migrate_stage;
    create_role_bindings = plain (create_role_bindings controller_ref diff_objects namespace);
    create_configmaps = plain (create_configmaps dashboard_provider data_sources);
    create_services = plain (create_services diff_objects new_services);
    create_persistent_volume_claims = create_persistent_volume_claims parse_quantity config;
    create_stateful_sets = create_stateful_sets diff_sets order new_sets config;
    create_deployments = deployments_stage;
    create_ingresses = record {
      run = create_ingresses diff_objects new_ingresses default_target;
      keeps = ingresses_keep_version diff_objects new_ingresses default_target;
    };
    delete_default_ism_policy = record {
      run = delete_policies_stage;
      keeps = λ vmo.
          Ensures-then
            (delete_default_ism_policy config (map (λ (p : String × String). p.0) policies) vmo)
            (λ e. pure (vmo, e)) (λ e. Ensures-pure (vmo, e) refl);
    };
    set_auto_expand_indices = plain (set_auto_expand_indices config);
    configure_ism = plain (configure_ism diff_states diff_templates serialize config);
    sync_default_ism_policy =
        plain (sync_default_ism_policy diff_states diff_templates serialize load config policies);
    create_default_index_patterns = plain patterns_stage;
    claims_keep = claims_keep_version parse_quantity config;
    deployments_keep = λ ads existing_cluster vmo.
        let vmo' = with_gateways nat_gateway_ips vmo in
        Ensures-then
          (attempt (
            create_deployments diff_deployments (new_deployments ads) dashboards_of config vmo'
              existing_cluster))
          (λ r. pure (vmo', r)) (λ r. Ensures-pure (vmo', r) refl);
  }
