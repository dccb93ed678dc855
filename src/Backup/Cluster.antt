-- ===== src/Backup/Cluster.antt =====
-- What the backup hook does with Kubernetes: verrazzano-backup-hook/utilities/k8s/k8sHelper.go.
-- The goroutines that check pods run one after the other here, in the order of the pods; what they
-- return is dropped, as in the source.
use verrazzano_monitoring_op.Prelude.{
  ℕ, zero, suc, String, Bool, true, false, not, ◌&&◌, ◌||◌, Option, none, some, List, [], ◌∷◌, ◌==◌,
  ◌=ₜ◌, if◌then◌else◌, length, any,
}
use verrazzano_monitoring_op.Prelude.Int.{ℤ, pos, ltb_ℤ, eqb_ℤ}
use verrazzano_monitoring_op.Backup.Hook.{
  running, Setting, get_object, list_objects, update_object, delete_object, scale, update_scale,
  Pod, Hook, pure, stop, ◌>>=◌, ◌>>◌, on_error, call, check_error, ask, some_or_raise,
  some_or_panic, get_env_with_default, wait_random, wait_or,
}

-- `OpensearchVar`
pub record OpensearchVar : Type 0 where
  pub is_legacy_os : Bool
  pub open_search_url : String
  pub namespace : String
  pub data_pod_container_name : String
  pub master_pod_container_name : String
  pub ingest_resource_name : String
  pub ingest_label_selector : String
  pub osd_deployment_name : String
  pub osd_label_selector : String
  pub osd_deployment_label_selector : String
  pub operator_deployment_name : String
  pub operator_deployment_label_selector : String
  pub master_label : String
  pub data_label : String

unfoldable pub new_opensearch_var : Bool → OpensearchVar
new_opensearch_var true = record {
  is_legacy_os = true;
  open_search_url = "http://127.0.0.1:9200";
  namespace = "verrazzano-system";
  data_pod_container_name = "es-data";
  master_pod_container_name = "es-master";
  ingest_resource_name = "vmi-system-es-ingest";
  ingest_label_selector = "app=system-es-ingest";
  osd_deployment_name = "vmi-system-osd";
  osd_label_selector = "app=system-osd";
  osd_deployment_label_selector = "verrazzano-component=osd";
  operator_deployment_name = "verrazzano-monitoring-operator";
  operator_deployment_label_selector = "k8s-app=verrazzano-monitoring-operator";
  master_label = "opensearch.verrazzano.io/role-master=true";
  data_label = "opensearch.verrazzano.io/role-data=true";
}
new_opensearch_var false = record {
  is_legacy_os = false;
  open_search_url = "https://127.0.0.1:9200";
  namespace = "verrazzano-logging";
  data_pod_container_name = "opensearch";
  master_pod_container_name = "opensearch";
  ingest_resource_name = "opensearch-es-ingest";
  ingest_label_selector = "opster.io/opensearch-nodepool=es-ingest";
  osd_deployment_name = "opensearch-dashboards";
  osd_label_selector = "opensearch.cluster.dashboards=opensearch";
  osd_deployment_label_selector = "opensearch.cluster.dashboards=opensearch";
  operator_deployment_name = "opensearch-operator-controller-manager";
  operator_deployment_label_selector = "control-plane=controller-manager";
  master_label = "opensearch.role=cluster_manager";
  data_label = "opster.io/opensearch-nodepool=es-data";
}

abbrev pub logging_namespace : String
logging_namespace = "verrazzano-logging"

abbrev pub security_job_label : String
security_job_label = "job-name=opensearch-securityconfig-update"

unfoldable pub health_timeout : Setting → String
unfolding get_env_with_default
health_timeout setting = get_env_with_default setting "HEALTH_CHECK" "10m"

unfoldable pub is_pod_ready : Pod → Bool
unfolding any
is_pod_ready pod = any pod.conditions (λ c. c.0 =ₜ "Ready" && c.1 =ₜ "True")

abbrev pub first_pod : List Pod → Option Pod
first_pod [] = none
first_pod (pod ∷ pods) = some pod

-- whether to wait for a pod that is there
unfoldable pub must_wait : Bool → Pod → Bool
unfolding is_pod_ready
must_wait false pod = true
must_wait true pod = not (pod.phase =ₜ "Running") || not (is_pod_ready pod)

-- whether the pod of the security job is there, where it was not seen before
job_seen : Bool → Hook Bool
unfolding ask
job_seen true = pure true
job_seen false = ask (list_objects "pods" logging_namespace security_job_label) >>= λ listed.
    pure (not (length listed.pods == 0))

-- the same of the pod of the bootstrap
pod_seen : Bool → Hook Bool
pod_seen true = pure true
pod_seen false = call (get_object "pods" logging_namespace "opensearch-bootstrap-0") >>= λ found.
    if found.not_found then pure false else (check_error found.error >> pure true)

module _ (setting : Setting) where
  -- `up` is whether `checkFlag` is "up" and not "down"; without a pod, the loop goes on at once
  -- where it waits for the pod to come up
  pod_loop : ℕ → String → Bool → String → String → ℤ → ℤ → Hook (Unit {0})
  unfolding must_wait wait_or ask
  pod_loop zero namespace up timeout name total time = stop running
  pod_loop (suc rounds) namespace up timeout name total time =
      ask (get_object "pods" namespace name) >>= λ answer. elim (first_pod answer.pods) [
        | none ↦ if up then pod_loop rounds namespace up timeout name total time else pure tt
        | some pod ↦
            if must_wait up pod
            then (wait_or setting timeout total time
                  "Timeout exceeded. Pod is still not in running state"
                >>= λ t. pod_loop rounds namespace up timeout name total t)
            else pure tt
      ]

  unfoldable pub check_pod_status : ℕ → String → String → Bool → String → Hook (Unit {0})
  unfolding pod_loop
  check_pod_status rounds name namespace up timeout =
      some_or_raise "invalid duration" (setting.parse_duration timeout) >>= λ total.
      pod_loop rounds namespace up timeout name total (pos 0)

  -- the goroutines, whose errors nobody reads
  check_pods : ℕ → List Pod → String → Bool → String → Hook (Unit {0})
  unfolding check_pod_status
  check_pods rounds [] namespace up timeout = pure tt
  check_pods rounds (pod ∷ pods) namespace up timeout =
      on_error (check_pod_status rounds pod.name namespace up timeout) (λ e. pure tt) pure
      >> check_pods rounds pods namespace up timeout

  unfoldable pub scale_deployment : ℕ → String → String → String → ℤ → Hook (Unit {0})
  unfolding check_pods wait_random health_timeout ask
  scale_deployment rounds label_selector namespace name replica_count = do
    deployment ← ask (get_object "deployments" namespace name)
    current_value ← some_or_panic deployment.replicas
    if eqb_ℤ replica_count current_value then pure tt else (do
      listed ← ask (list_objects "pods" namespace label_selector)
      ask (scale namespace name replica_count)
      if ltb_ℤ current_value replica_count
          then (wait_random setting (health_timeout setting)
              >> check_pods rounds listed.pods namespace true (health_timeout setting))
          else check_pods rounds listed.pods namespace false (health_timeout setting))

  unfoldable pub check_deployment : String → String → Hook Bool
  unfolding ask
  check_deployment label_selector namespace = do
    listed ← ask (list_objects "deployments" namespace label_selector)
    pure (length listed.names == 1)

  unfoldable pub scale_sts : String → String → ℤ → Hook (Unit {0})
  unfolding ask
  scale_sts name namespace replica_count = do
    ask (get_object "statefulsets/scale" namespace name)
    ask (update_scale namespace name replica_count)
    pure tt

  unfoldable pub check_all_pods_after_restore : ℕ → OpensearchVar → Hook (Unit {0})
  unfolding check_pods wait_random health_timeout ask
  check_all_pods_after_restore rounds v = do
    wait_random setting (health_timeout setting)
    ingest ← ask (list_objects "pods" v.namespace v.ingest_label_selector)
    kibana ← ask (list_objects "pods" v.namespace v.osd_label_selector)
    check_pods rounds ingest.pods v.namespace true (health_timeout setting)
    check_pods rounds kibana.pods v.namespace true (health_timeout setting)

  unfoldable pub is_legacy_os : Hook Bool
  unfolding get_env_with_default
  is_legacy_os =
      some_or_raise "invalid syntax"
        (setting.parse_bool (get_env_with_default setting "DISABLE_SECURITY_PLUGIN" "false"))

  -- the pods of the bootstrap: whether that of the security job, and that of the cluster, was seen
  bootstrap_loop : ℕ → Bool → Bool → ℤ → ℤ → Hook (Unit {0})
  unfolding wait_or job_seen pod_seen health_timeout
  bootstrap_loop zero job pod total time = stop running
  bootstrap_loop (suc rounds) job pod total time =
      if job && pod
      then pure tt
      else (job_seen job >>= λ job'. pod_seen pod >>= λ pod'.
          if not job' || not pod'
          then (wait_or setting (health_timeout setting) total time
                "Timeout exceeded. Required pods for bootstrapping the cluster still doesn't exist"
              >>= λ t. bootstrap_loop rounds job' pod' total t)
          else bootstrap_loop rounds job' pod' total time)

  unfoldable pub check_bootstrap_resources : ℕ → Hook (Unit {0})
  unfolding bootstrap_loop health_timeout
  check_bootstrap_resources rounds =
      some_or_raise "invalid duration" (setting.parse_duration (health_timeout setting))
      >>= λ total. bootstrap_loop rounds false false total (pos 0)

-- `meta.IsNoMatchError` counts as `not_found` too
unfoldable pub reset_cluster_initialization : Hook (Unit {0})
unfolding ask
reset_cluster_initialization = do
  fetched ← call (get_object "opensearchclusters" logging_namespace "opensearch")
  if fetched.not_found
      then pure tt
      else (check_error fetched.error
          >> ask (update_object "opensearchclusters/status" logging_namespace "opensearch")
          >> pure tt)

abbrev pub first_name : List String → Option String
first_name [] = none
first_name (name ∷ names) = some name

unfoldable pub get_security_job : Hook (Option String)
unfolding ask
get_security_job = do
  jobs ← ask (list_objects "jobs" logging_namespace security_job_label)
  pure (first_name jobs.names)

-- `job.Name` of a job that is not there is a read through a nil pointer
unfoldable pub delete_security_job : Hook (Unit {0})
unfolding get_security_job ask
delete_security_job = do
  job ← get_security_job
  name ← some_or_panic job
  ask (delete_object "jobs" logging_namespace name)
  pure tt

unfoldable pub delete_open_search_service : Hook (Unit {0})
unfolding ask
delete_open_search_service = do
  service ← call (get_object "services" logging_namespace "opensearch")
  if service.not_found
      then pure tt
      else (check_error service.error
          >> ask (delete_object "services" logging_namespace "opensearch")
          >> pure tt)
