-- ===== src/Backup/Search.antt =====
-- The calls of OpenSearch by the backup hook: verrazzano-backup-hook/opensearch/opensearch.go.
-- A loop takes the number of rounds after which it is still `running`. A variable that a response is
-- decoded into keeps its value where `HTTPHelper` returns without an error but decodes nothing.
use verrazzano_monitoring_op.Prelude.{
  ℕ, zero, suc, String, ◌<>◌, Bool, true, false, not, ◌&&◌, Option, none, some, List, [], ◌∷◌, ◌==◌,
  ◌=ₜ◌, if◌then◌else◌, any,
}
use verrazzano_monitoring_op.Prelude.Int.{ℤ, pos, eqb_ℤ}
use verrazzano_monitoring_op.Backup.Hook.{
  Outcome, err, panic, running, Setting, http, Answer, Hook, pure, stop, ◌>>=◌, ◌>>◌, on_error,
  check_error, ask, kept, some_or_exit, some_or_raise, get_env_with_default, wait_or, BasicAuth,
}

pub record ConnectionData : Type 0 where
  pub object_access_key : String
  pub object_secret_key : String
  pub endpoint : String
  pub region_name : String
  pub bucket_name : String
  pub backup_name : String
  pub velero_timeout : String

-- `OpensearchImpl`
pub record Search : Type 0 where
  pub timeout : String
  pub base_url : String
  pub secret_data : ConnectionData
  pub basic_auth : BasicAuth

pub record SnapshotRequestPayload : Type 0 where
  pub type : String
  pub client : String
  pub bucket : String
  pub region : String
  pub endpoint : String
  pub path_style_access : Bool

abbrev pub snapshot_repo_name : String
snapshot_repo_name = "verrazzano-backup"

-- `HTTPHelper`: `none` is the return without an error where the status is not 200
unfoldable pub http_helper : Setting → Search → String → String → String → Hook (Option Answer)
unfolding ask
http_helper setting o method url body = do
  some_or_exit (setting.parse_duration o.timeout)
  check_error (setting.request_error url)
  answer ← ask (http method url body)
  check_error answer.read_error
  if not (answer.status == 200)
      then pure none
      else (check_error answer.decode_error >> pure (some answer))

-- a variable after `HTTPHelper`, by the field that is decoded into it
abbrev pub decoded {ℓ} : {A : Type ℓ} → (Answer → Option A) → Option Answer → A → A
decoded field none v = v
decoded field (some answer) v = kept (field answer) v

unfoldable pub is_dev : Setting → Bool
unfolding get_env_with_default
is_dev setting = get_env_with_default setting "dev" "false" =ₜ "true"

unfoldable pub total_of : Setting → Search → Hook ℤ
total_of setting o =
    some_or_raise "invalid duration" (setting.parse_duration o.secret_data.velero_timeout)

-- `snapshotInfo.Snapshots[0].State`
abbrev pub first_state : List String → Hook String
first_state [] = stop panic
first_state (state ∷ states) = pure state

module _ (setting : Setting) (o : Search) where
  unfoldable pub reach_loop : ℕ → ℤ → ℤ → Hook (Unit {0})
  unfolding http_helper wait_or
  reach_loop zero total time = stop running
  reach_loop (suc rounds) total time =
      on_error (http_helper setting o "GET" o.base_url "")
        (λ e. wait_or setting o.secret_data.velero_timeout total time e >>= λ t.
          reach_loop rounds total t)
        (λ answer. pure tt)

  unfoldable pub ensure_open_search_is_reachable : ℕ → Hook (Unit {0})
  unfolding reach_loop is_dev total_of
  ensure_open_search_is_reachable rounds =
      if is_dev setting
      then pure tt
      else (total_of setting o >>= λ total. reach_loop rounds total (pos 0))

  abbrev pub health_url : String
  health_url = o.base_url <> "/_cluster/health"

  -- the first loop: the time that passed, and the status decoded
  unfoldable pub health_loop : ℕ → ℤ → ℤ → Hook (ℤ × String)
  unfolding http_helper wait_or
  health_loop zero total time = stop running
  health_loop (suc rounds) total time =
      on_error (http_helper setting o "GET" health_url "")
        (λ e. wait_or setting o.secret_data.velero_timeout total time e >>= λ t.
          health_loop rounds total t)
        (λ answer. pure (time, decoded (λ a. a.health) answer ""))

  unfoldable pub green_loop : ℕ → ℤ → ℤ → String → Hook (Unit {0})
  unfolding http_helper wait_or
  green_loop zero total time health = stop running
  green_loop (suc rounds) total time health =
      on_error (http_helper setting o "GET" health_url "")
        (λ e.
          wait_or setting o.secret_data.velero_timeout total time
            "VeleroTimeout exceeded. Json unmarshalling error while checking cluster health"
          >>= λ t. green_loop rounds total t health)
        (λ answer.
          let health' = decoded (λ a. a.health) answer health in
          if not (health' =ₜ "green")
          then (wait_or setting o.secret_data.velero_timeout total time
                "VeleroTimeout exceeded. Cluster health expected 'green'"
              >>= λ t. green_loop rounds total t health')
          else pure tt)

  unfoldable pub ensure_open_search_is_healthy : ℕ → Hook (Unit {0})
  unfolding ensure_open_search_is_reachable health_loop green_loop is_dev total_of
  ensure_open_search_is_healthy rounds = do
    ensure_open_search_is_reachable rounds
    total ← total_of setting o
    if is_dev setting
        then pure tt
        else (health_loop rounds total (pos 0) >>= λ reached.
            green_loop rounds total reached.0 reached.1)

  unfoldable pub reload_opensearch_secure_settings : Hook (Unit {0})
  unfolding http_helper
  reload_opensearch_secure_settings = do
    answer ← http_helper setting o "POST" (o.base_url <> "/_nodes/reload_secure_settings") ""
    let total = decoded (λ a. a.nodes_total) answer (pos 0)
    let failed = decoded (λ a. a.nodes_failed) answer (pos 0)
    let successful = decoded (λ a. a.nodes_successful) answer (pos 0)
    if eqb_ℤ failed (pos 0) && eqb_ℤ total (pos 0) && eqb_ℤ successful (pos 0)
        then stop (err "Invalid cluster settings detected. Check the connection")
        else if eqb_ℤ failed (pos 0) && eqb_ℤ total successful
        then pure tt
        else stop (err "Not all nodes were updated successfully")

  abbrev pub snapshot_payload : SnapshotRequestPayload
  snapshot_payload = record {
    type = "s3";
    client = "default";
    bucket = o.secret_data.bucket_name;
    region = o.secret_data.region_name;
    endpoint = o.secret_data.endpoint;
    path_style_access = true;
  }

  -- `serialize` is `json.Marshal`
  unfoldable pub register_snapshot_repository :
      (SnapshotRequestPayload → Outcome String) → Hook (Unit {0})
  unfolding http_helper
  register_snapshot_repository serialize = do
    body ← stop (serialize snapshot_payload)
    answer ← http_helper setting o "POST" (o.base_url <> "/_snapshot/" <> snapshot_repo_name) body
    if decoded (λ a. a.acknowledged) answer false
        then pure tt
        else stop (err "Snapshot registration unsuccessful")

  abbrev pub snapshot_url : String
  snapshot_url =
      o.base_url <> "/_snapshot/" <> snapshot_repo_name <> "/" <> o.secret_data.backup_name

  unfoldable pub trigger_snapshot : Hook (Unit {0})
  unfolding http_helper
  trigger_snapshot = do
    answer ← http_helper setting o "POST" snapshot_url ""
    if not (decoded (λ a. a.accepted) answer false)
        then stop (err "Snapshot trigger failure")
        else pure tt

  -- what the loop does with the state; `again` goes on after a wait
  unfoldable pub progress_step : (ℤ → Hook (Unit {0})) → ℤ → ℤ → String → Hook (Unit {0})
  unfolding wait_or
  progress_step again total time state =
      if state =ₜ "IN_PROGRESS"
      then (wait_or setting o.secret_data.velero_timeout total time
            "VeleroTimeout exceeded. Snapshot state is still IN_PROGRESS"
          >>= again)
      else if state =ₜ "SUCCESS"
      then pure tt
      else stop (err "Snapshot state is invalid")

  unfoldable pub progress_loop : ℕ → ℤ → ℤ → List String → Hook (Unit {0})
  unfolding http_helper progress_step
  progress_loop zero total time snapshots = stop running
  progress_loop (suc rounds) total time snapshots =
      http_helper setting o "GET" snapshot_url "" >>= λ answer.
      let snapshots' = decoded (λ a. a.snapshots) answer snapshots in
      first_state snapshots'
      >>= progress_step (λ t. progress_loop rounds total t snapshots') total time

  unfoldable pub check_snapshot_progress : ℕ → Hook (Unit {0})
  unfolding progress_loop is_dev total_of
  check_snapshot_progress rounds =
      if is_dev setting
      then pure tt
      else (total_of setting o >>= λ total. progress_loop rounds total (pos 0) [])

  abbrev pub data_index_url : String
  data_index_url =
      if o.basic_auth.required then o.base_url <> "/*,-.opendistro_security" else o.base_url <> "/*"

  unfoldable pub delete_data : Hook (Unit {0})
  unfolding http_helper
  delete_data = do
    streams ← http_helper setting o "DELETE" (o.base_url <> "/_data_stream/*") ""
    let acknowledged = decoded (λ a. a.acknowledged) streams false
    if not acknowledged then stop (err "Data streams deletion failure") else (do
      indices ← http_helper setting o "DELETE" data_index_url ""
      if not (decoded (λ a. a.acknowledged) indices acknowledged)
          then stop (err "Data index deletion failure")
          else pure tt)

  -- `restore_body` is the text of the JSON object that `TriggerRestore` sends
  unfoldable pub trigger_restore : Outcome String → Hook (Unit {0})
  unfolding http_helper
  trigger_restore restore_body = do
    body ← stop restore_body
    answer ← http_helper setting o "POST" (snapshot_url <> "/_restore") body
    if not (decoded (λ a. a.accepted) answer false)
        then stop (err "Snapshot restore trigger failed")
        else pure tt

  unfoldable pub restore_loop : ℕ → ℤ → ℤ → List String → Hook (Unit {0})
  unfolding http_helper wait_or
  restore_loop zero total time streams = stop running
  restore_loop (suc rounds) total time streams =
      http_helper setting o "GET" (o.base_url <> "/_data_stream") "" >>= λ answer.
      let streams' = decoded (λ a. a.data_streams) answer streams in
      if any streams' (λ state. not (state =ₜ "GREEN"))
      then (wait_or setting o.secret_data.velero_timeout total time
            "VeleroTimeout exceeded. Restore state is still IN_PROGRESS"
          >>= λ t. restore_loop rounds total t streams')
      else pure tt

  unfoldable pub check_restore_progress : ℕ → Hook (Unit {0})
  unfolding restore_loop is_dev total_of
  check_restore_progress rounds =
      if is_dev setting
      then pure tt
      else (total_of setting o >>= λ total. restore_loop rounds total (pos 0) [])

  unfoldable pub backup : ℕ → (SnapshotRequestPayload → Outcome String) → Hook (Unit {0})
  unfolding register_snapshot_repository trigger_snapshot check_snapshot_progress
  backup rounds serialize = do
    register_snapshot_repository serialize
    trigger_snapshot
    check_snapshot_progress rounds

  unfoldable pub restore :
      ℕ → (SnapshotRequestPayload → Outcome String) → Outcome String → Hook (Unit {0})
  unfolding register_snapshot_repository delete_data trigger_restore check_restore_progress
  restore rounds serialize restore_body = do
    register_snapshot_repository serialize
    delete_data
    trigger_restore restore_body
    check_restore_progress rounds
