-- ===== src/Examples/Backups.antt =====
-- The backup hook on concrete answers.
use verrazzano_monitoring_op.Prelude.{
  any, String, ◌≡◌, refl, true, false, none, some, List, [], ◌∷◌, ◌++◌, arith,
}
use verrazzano_monitoring_op.Prelude.Int.{pos}
use verrazzano_monitoring_op.Backup.Hook.{
  Outcome, ok, panic, running, Setting, Call, http, random, Answer,
}
use verrazzano_monitoring_op.Backup.Search.{
  is_dev, SnapshotRequestPayload, Search, backup, restore, delete_data,
  ensure_open_search_is_healthy, ensure_open_search_is_reachable, check_restore_progress,
  check_snapshot_progress,
}
use verrazzano_monitoring_op.Backup.Main.{no_connection}
use verrazzano_monitoring_op.Backup.Cluster.{delete_security_job}
use verrazzano_monitoring_op.Backup.Ends.{Ends}
use verrazzano_monitoring_op.Backup.Ends.Loops.{backup_and_restore_end}
use verrazzano_monitoring_op.Backup.Done.{Seen, backup_done}
use verrazzano_monitoring_op.Backup.Unseen.{streams_call, indices_call, delete_data_unrefused}

-- every duration is ten seconds
abbrev setting : Setting
setting = record {
  environment = λ key. none;
  parse_duration = λ s. some (pos 10000000000);
  request_error = λ url. none;
  quote = λ s. s;
  parse_bool = λ s. some false;
}

abbrev search : Search
search = record {
  timeout = "10s";
  base_url = "http://os";
  secret_data = record (no_connection "10s") { backup_name = "b" };
  basic_auth = record { required = false; username = ""; password = "" };
}

abbrev answered : Answer
answered = record {
  error = none;
  not_found = false;
  number = 12;
  status = 200;
  read_error = none;
  decode_error = none;
  health = some "green";
  acknowledged = some true;
  accepted = some true;
  snapshots = some ("SUCCESS" ∷ []);
  data_streams = some ("GREEN" ∷ []);
  nodes_total = some (pos 3);
  nodes_successful = some (pos 3);
  nodes_failed = some (pos 0);
  pods = [];
  text = "";
  names = [];
  replicas = some (pos 1);
  storage_location = "store";
  post_hooks = [];
  credential_name = "";
  credential_key = "";
  credential_namespace = "";
  region = "";
  s3_url = "";
  bucket = "";
  access_key = "";
  secret_access_key = "";
}

abbrev good : List Call → Call → Answer
good tr c = answered

-- a snapshot that is not complete until some calls have been made
abbrev slow : List Call → Call → Answer
slow (a ∷ b ∷ c ∷ d ∷ tr) call = answered
slow tr call = record answered { snapshots = some ("IN_PROGRESS" ∷ []) }

abbrev marshal : SnapshotRequestPayload → Outcome String
marshal p = ok p.type

slow-backup : backup setting search 11 marshal slow [] ≡ (
  ok tt,
  http "POST" "http://os/_snapshot/verrazzano-backup" "s3"
      ∷ http "POST" "http://os/_snapshot/verrazzano-backup/b" ""
      ∷ http "GET" "http://os/_snapshot/verrazzano-backup/b" ""
      ∷ random
      ∷ http "GET" "http://os/_snapshot/verrazzano-backup/b" ""
      ∷ [],
)
unfolding backup
slow-backup = refl

backup_and_restore_end_example :
    Ends (ensure_open_search_is_healthy setting search 11)
    × Ends (backup setting search 11 marshal)
    × Ends (restore setting search 11 marshal (ok "{}"))
backup_and_restore_end_example =
    backup_and_restore_end setting search 10000000000 refl (omega arith) 11 marshal (ok "{}")
      (omega arith) (λ p. tt) tt

backup_done_example : Seen setting search slow (backup setting search 11 marshal slow []).1
unfolding is_dev backup
backup_done_example = backup_done setting search slow 11 marshal [] refl refl

-- the indices are not deleted, and the restore goes on
abbrev stubborn : List Call → Call → Answer
stubborn [] call = answered
stubborn (a ∷ tr) call = record answered { status = 403; acknowledged = some false }

delete_data_unrefused_example :
    delete_data setting search stubborn []
    ≡ (ok tt, (streams_call search ∷ []) ++ indices_call setting search ∷ [])
delete_data_unrefused_example =
    delete_data_unrefused setting search stubborn [] (pos 10000000000) refl (λ url. refl)
      (record { error = refl; read_error = refl; status = refl; decode_error = refl }) refl
      (record { error = refl; read_error = refl; status = refl })

-- a server that answers every request with 503
abbrev broken : List Call → Call → Answer
broken tr call = record answered { status = 503 }

reachable_when_broken : (ensure_open_search_is_reachable setting search 11 broken []).0 ≡ ok tt
unfolding ensure_open_search_is_reachable
reachable_when_broken = refl

restored_when_broken : (check_restore_progress setting search 11 broken []).0 ≡ ok tt
unfolding check_restore_progress any
restored_when_broken = refl

snapshot_panics_when_broken : (check_snapshot_progress setting search 11 broken []).0 ≡ panic
unfolding check_snapshot_progress
snapshot_panics_when_broken = refl

-- a timeout below one second waits for no time, and its loop does not end
abbrev hasty : Setting
hasty = record setting { parse_duration = λ s. some (pos 500000000) }

unreachable : List Call → Call → Answer
unreachable tr random = answered
unreachable tr call = record answered { error = some "refused" }

hasty_runs_on : (ensure_open_search_is_reachable hasty search 40 unreachable []).0 ≡ running
unfolding ensure_open_search_is_reachable unreachable
hasty_runs_on = refl

-- no security job to delete
no_job : (delete_security_job good []).0 ≡ panic
unfolding delete_security_job
no_job = refl
