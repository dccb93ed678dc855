-- ===== src/Backup/Keystore.antt =====
-- The credentials of the object store and the keystores of OpenSearch's pods:
-- verrazzano-backup-hook/utilities/k8s/k8sHelper.go.
use verrazzano_monitoring_op.Prelude.{
  take, ℕ, zero, suc, String, ◌<>◌, Option, none, some, List, [], ◌∷◌, ◌=ₜ◌, if◌then◌else◌,
}
use verrazzano_monitoring_op.Prelude.Int.{ℤ, pos}
use verrazzano_monitoring_op.Backup.Hook.{
  err, panic, running, Setting, get_object, list_objects, exec_in_pod, read_credentials, Pod,
  Answer, Hook, pure, stop, ◌>>=◌, ◌>>◌, on_error, call, check_error, relabelled, ask,
  some_or_raise, some_or_panic, wait_or,
}
use verrazzano_monitoring_op.Backup.Search.{ConnectionData}
use verrazzano_monitoring_op.Backup.Cluster.{OpensearchVar}

unfoldable pub get_object_store_creds : String → String → String → Hook (String × String)
unfolding ask
get_object_store_creds secret_name namespace secret_key = do
  secret ← ask (get_object "secrets" namespace secret_name)
  credentials ← ask (read_credentials secret_key)
  pure (credentials.access_key, credentials.secret_access_key)

unfoldable pub get_backup_storage_location : String → String → Hook Answer
unfolding ask
get_backup_storage_location velero_namespace name = do
  location ← ask (get_object "backupstoragelocations" velero_namespace name)
  check_error location.decode_error
  pure location

unfoldable pub get_backup : String → String → Hook Answer
unfolding ask
get_backup velero_namespace name = do
  backup ← ask (get_object "backups" velero_namespace name)
  check_error backup.decode_error
  pure backup

-- `Hooks.Resources[0].Post[0].Exec.Timeout`
first_timeout : List (List String) → Hook String
first_timeout [] = stop panic
first_timeout ([] ∷ resources) = stop panic
first_timeout ((timeout ∷ hooks) ∷ resources) = pure timeout

-- `none` is the nil pointer that is returned without an error for the default location
unfoldable pub populate_conn_data : String → String → Hook (Option ConnectionData)
unfolding get_backup get_backup_storage_location get_object_store_creds first_timeout
populate_conn_data velero_namespace backup_name = do
  backup ← get_backup velero_namespace backup_name
  if backup.storage_location =ₜ "default" then pure none else (do
    bsl ← get_backup_storage_location velero_namespace backup.storage_location
    keys ← get_object_store_creds bsl.credential_name bsl.credential_namespace bsl.credential_key
    timeout ← first_timeout backup.post_hooks
    pure (
        some (record {
          object_access_key = keys.0;
          object_secret_key = keys.1;
          endpoint = bsl.s3_url;
          region_name = bsl.region;
          bucket_name = bsl.bucket;
          backup_name = backup_name;
          velero_timeout = timeout;
        })))

unfoldable pub exec_pod : Pod → String → String → Hook (Unit {0})
exec_pod pod container command = call (exec_in_pod pod.name container command) >>= λ answer.
    relabelled "error running command" answer.error

module _ (setting : Setting) where
  exec_loop : ℕ → Pod → String → String → String → ℤ → ℤ → Hook (Unit {0})
  unfolding exec_pod wait_or
  exec_loop zero pod container timeout command total time = stop running
  exec_loop (suc rounds) pod container timeout command total time =
      on_error (exec_pod pod container command)
        (λ e. wait_or setting timeout total time e >>= λ t.
          exec_loop rounds pod container timeout command total t)
        pure

  unfoldable pub exec_retry : ℕ → Pod → String → String → String → Hook (Unit {0})
  unfolding exec_loop
  exec_retry rounds pod container timeout command =
      some_or_raise "invalid duration" (setting.parse_duration timeout) >>= λ total.
      exec_loop rounds pod container timeout command total (pos 0)

  -- both commands, in each of the pods
  update_pods : ℕ → List Pod → String → String → String → String → Hook (Unit {0})
  unfolding exec_retry
  update_pods rounds [] container timeout access secret = pure tt
  update_pods rounds (pod ∷ pods) container timeout access secret = do
    exec_retry rounds pod container timeout access
    exec_retry rounds pod container timeout secret
    update_pods rounds pods container timeout access secret

  keystore_command : String → String → String
  keystore_command key setting_name =
      "echo "
      <> setting.quote key
      <> " | /usr/share/opensearch/bin/opensearch-keystore add --stdin --force s3.client.default."
      <> setting_name

  -- the pod of the bootstrap, where it is there
  update_bootstrap : ℕ → OpensearchVar → String → String → String → Hook (Unit {0})
  unfolding update_pods
  update_bootstrap rounds v timeout access secret =
      call (get_object "pods" v.namespace "opensearch-bootstrap-0") >>= λ found. elim found.error [
        | none ↦
            update_pods rounds (take 1 found.pods) v.master_pod_container_name timeout access secret
        | some e ↦ if found.not_found then pure tt else stop (err e)
      ]

  unfoldable pub update_keystore :
      ℕ → Option ConnectionData → String → OpensearchVar → Hook (Unit {0})
  unfolding update_bootstrap update_pods keystore_command ask
  update_keystore rounds conn_data timeout v = do
    c ← some_or_panic conn_data
    let access = keystore_command c.object_access_key "access_key"
    let secret = keystore_command c.object_secret_key "secret_key"
    if v.is_legacy_os then pure tt else update_bootstrap rounds v timeout access secret
    masters ← ask (list_objects "pods" v.namespace v.master_label)
    update_pods rounds masters.pods v.master_pod_container_name timeout access secret
    data_pods ← ask (list_objects "pods" v.namespace v.data_label)
    update_pods rounds data_pods.pods v.data_pod_container_name timeout access secret
