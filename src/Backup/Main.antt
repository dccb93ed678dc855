-- ===== src/Backup/Main.antt =====
-- The program: verrazzano-backup-hook/main.go. `exit` stands for `os.Exit(1)`; the pre-restore
-- operation leaves by `os.Exit(0)`.
use verrazzano_monitoring_op.Prelude.{
  ℕ, zero, suc, ◌+◌, String, Bool, true, false, not, ◌&&◌, ◌||◌, Option, none, some, leb, ◌=ₜ◌,
  if◌then◌else◌,
}
use verrazzano_monitoring_op.Prelude.Int.{ℤ, pos}
use verrazzano_monitoring_op.Prelude.Io.{Error}
use verrazzano_monitoring_op.Backup.Hook.{
  Outcome, exit, panic, running, Setting, get_context, read_file, Hook, pure, stop, ◌>>=◌, ◌>>◌,
  on_error, call, ask, some_or_exit, wait_random, BasicAuth,
}
use verrazzano_monitoring_op.Backup.Search.{
  ConnectionData, Search, SnapshotRequestPayload, ensure_open_search_is_healthy,
  reload_opensearch_secure_settings, backup, restore,
}
use verrazzano_monitoring_op.Backup.Cluster.{
  OpensearchVar, new_opensearch_var, health_timeout, scale_deployment, check_deployment,
  is_legacy_os, check_bootstrap_resources, reset_cluster_initialization, delete_security_job,
  delete_open_search_service,
}
use verrazzano_monitoring_op.Backup.Keystore.{populate_conn_data, update_keystore}

-- `if err != nil { os.Exit(1) }`
abbrev pub or_exit {ℓ} : {A : Type ℓ} → Hook A → Hook A
or_exit m = on_error m (λ e. stop exit) pure

-- `if err != nil { log.Errorf(…) }`
abbrev pub logged : Hook (Unit {0}) → Hook (Unit {0})
logged m = on_error m (λ e. pure tt) pure

abbrev pub no_connection : String → ConnectionData
no_connection timeout = record {
  object_access_key = "";
  object_secret_key = "";
  endpoint = "";
  region_name = "";
  bucket_name = "";
  backup_name = "";
  velero_timeout = timeout;
}

-- the environment, the number of rounds for each loop, and the marshalling of two requests
module _ (setting : Setting) (rounds : ℕ) (serialize : SnapshotRequestPayload → Outcome String)
    (restore_body : Outcome String) where
  abbrev is_ok : Option Error → Bool
  is_ok none = true
  is_ok (some e) = false

  -- the loop that makes the clients; a retry count above the bound is not looked at again
  unfoldable pub context_loop : ℕ → Bool → ℕ → Hook (Unit {0})
  unfolding wait_random health_timeout
  context_loop zero ready retry_count = stop running
  context_loop (suc left) ready retry_count = call get_context >>= λ answer.
      if ready && is_ok answer.error
      then pure tt
      else if leb retry_count 50
      then (on_error (wait_random setting (health_timeout setting)) (λ e. stop panic) pure
          >> context_loop left true (retry_count + 1))
      else context_loop left false retry_count

  scale_operator : OpensearchVar → ℤ → Hook (Unit {0})
  unfolding scale_deployment
  scale_operator v n =
      scale_deployment setting rounds v.operator_deployment_label_selector v.namespace
        v.operator_deployment_name n

  unfoldable pub pre_restore : OpensearchVar → Hook (Unit {0})
  unfolding scale_operator reset_cluster_initialization delete_security_job
      check_bootstrap_resources
  pre_restore v = do
    or_exit (scale_operator v (pos 0))
    logged reset_cluster_initialization
    logged delete_security_job
    or_exit (scale_operator v (pos 1))
    or_exit (check_bootstrap_resources setting rounds)
    or_exit (scale_operator v (pos 0))

  credentials : Bool → Hook BasicAuth
  unfolding ask
  credentials true = pure (record { required = false; username = ""; password = "" })
  credentials false = do
    username ← or_exit (ask (read_file "/mnt/admin-credentials/username"))
    password ← or_exit (ask (read_file "/mnt/admin-credentials/password"))
    pure (record { required = true; username = username.text; password = password.text })

  abbrev pub search_of : OpensearchVar → BasicAuth → ConnectionData → Search
  search_of v auth c = record {
    timeout = health_timeout setting;
    base_url = v.open_search_url;
    secret_data = c;
    basic_auth = auth;
  }

  scale_dashboards : OpensearchVar → Bool → Hook (Unit {0})
  unfolding scale_deployment
  scale_dashboards v false = pure tt
  scale_dashboards v true = logged (
      scale_deployment setting rounds v.osd_label_selector v.namespace v.osd_deployment_name
        (pos 0))

  scale_ingest : OpensearchVar → Hook (Unit {0})
  unfolding scale_deployment
  scale_ingest v =
      if v.is_legacy_os
      then or_exit (
          scale_deployment setting rounds v.ingest_label_selector v.namespace v.ingest_resource_name
            (pos 0))
      else or_exit delete_open_search_service

  unfoldable pub run_restore : OpensearchVar → Search → Hook (Unit {0})
  unfolding scale_operator scale_ingest scale_dashboards delete_open_search_service restore
      check_deployment
  run_restore v search = do
    or_exit (scale_operator v (pos 0))
    scale_ingest v
    or_exit (restore setting search rounds serialize restore_body)
    there ← or_exit (check_deployment setting v.osd_deployment_label_selector v.namespace)
    scale_dashboards v there
    logged (scale_operator v (pos 1))

  -- what follows the check of the flags and the clients, for the operations on a running cluster
  unfoldable pub run_operation : Bool → OpensearchVar → String → String → Hook (Unit {0})
  unfolding credentials ensure_open_search_is_healthy populate_conn_data update_keystore
      reload_opensearch_secure_settings backup run_restore
  run_operation is_restore v velero_namespace backup_name = do
    auth ← credentials v.is_legacy_os
    let search = search_of v auth (no_connection (health_timeout setting))
    or_exit (ensure_open_search_is_healthy setting search rounds)
    conn_data ← or_exit (populate_conn_data velero_namespace backup_name)
    or_exit (update_keystore setting rounds conn_data (health_timeout setting) v)
    or_exit (reload_opensearch_secure_settings setting search)
    c ← some_or_exit conn_data
    if is_restore
        then run_restore v (search_of v auth c)
        else or_exit (backup setting (search_of v auth c) rounds serialize)

  unfoldable pub main : String → String → String → Hook (Unit {0})
  unfolding context_loop is_legacy_os new_opensearch_var pre_restore run_operation
  main operation velero_namespace backup_name =
      if not (operation =ₜ "backup")
          && not (operation =ₜ "restore")
          && not (operation =ₜ "pre-restore")
        || backup_name =ₜ ""
      then stop exit
      else (do
        context_loop rounds true 0
        legacy ← or_exit (is_legacy_os setting)
        let v = new_opensearch_var legacy
        if operation =ₜ "pre-restore"
            then (if legacy then pure tt else pre_restore v)
            else run_operation (operation =ₜ "restore") v velero_namespace backup_name)
