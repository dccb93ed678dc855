-- ===== src/Examples/Migrations.antt =====
-- Runs of the monitor.
use verrazzano_monitoring_op.Prelude.{◌≡◌, refl, true, Option, none, some}
use verrazzano_monitoring_op.Prelude.Io.{Error, ok}
use verrazzano_monitoring_op.Monitor.{
  working, sending, opened, Monitor, run, migrate_old_indices, call, finish, Reach, start, next,
}
use verrazzano_monitoring_op.Monitor.Safety.{monitor_never_panics, monitor_waits, monitor_reports}

abbrev busy : Monitor
busy = record { running = true; ch = opened; worker = working }

abbrev waiting : Monitor
waiting = record { running = true; ch = opened; worker = sending (some "no reindex") }

Reach-busy : Reach busy
unfolding migrate_old_indices
Reach-busy = next start (call true true {e = none} refl)

Reach-waiting : Reach waiting
Reach-waiting = next Reach-busy (finish (some "no reindex") refl refl)

monitor_never_panics_example :
    (m' : Monitor) × (e : Option Error) × (migrate_old_indices true true waiting ≡ ok (m', e))
monitor_never_panics_example = monitor_never_panics Reach-waiting true true

monitor_waits_example : migrate_old_indices true true busy ≡ ok (busy, none)
monitor_waits_example = monitor_waits Reach-busy refl

monitor_reports_example :
    (m' : Monitor) × (migrate_old_indices true true waiting ≡ ok (m', some "no reindex"))
    × (migrate_old_indices true true m' ≡ ok (run m', none))
monitor_reports_example = monitor_reports Reach-waiting (some "no reindex") refl
