-- ===== src/Monitor.antt =====
-- pkg/upgrade/upgrade.go: the monitor of the reindexing that runs beside the reconciliations.
-- The channel has no buffer: the goroutine sends one value and blocks until it is received. A call
-- of `MigrateOldIndices` is one step: it never blocks.
pub mod Safety
use verrazzano_monitoring_op.Prelude.{
  ℕ, zero, suc, ◌+◌, ◌-◌, ◌*◌, ◌/◌, ◌%◌, ◌≤◌, ◌<◌, String, ◌<>◌, ◌≡◌, refl, sym, ap, ◌∙◌, ◌≢◌, ◌↔◌,
  ◌⊎◌, inl, inr, Bool, true, false, not, ◌&&◌, ◌||◌, Option, none, some, List, [], ◌∷◌, ◌++◌, map,
  Memᴰ, append_assoc, append-nil, arith, eq_iff, ltb, leb, ◌==◌, ◌=ₜ◌, if◌then◌else◌, Bool-cases,
  Option-cases, length, get_elem?, get_or, take, All, any, all, select, any_of_mem, any_witness,
  mem_of_mem-select, mem-select,
}
use verrazzano_monitoring_op.Prelude.Int.{
  ℤ, pos, negsuc, pos_part, neg_part, sub_ℕ, ◌+ℤ◌, ltb_ℤ, leb_ℤ, eqb_ℤ, quot, add32, add64, wrap64,
  wrap32,
}
use verrazzano_monitoring_op.Prelude.Io.{Error, Result, ok, err, panic}
use verrazzano_monitoring_op.Prelude.Io.Fallible.{◌>>=◌, ◌>>◌}

-- the goroutine that `run` starts
pub data Worker : Type 0 where
  idle : Worker  -- there is none, or it has ended
  working : Worker
  sending : Option Error → Worker  -- it is blocked on `ch <- e`

-- the channel that the monitor's field `ch` holds
pub data Channel : Type 0 where
  nil : Channel
  opened : Channel
  closed : Channel

pub record Monitor : Type 0 where
  pub running : Bool
  pub ch : Channel
  pub worker : Worker

abbrev pub new_monitor : Monitor
new_monitor = record { running = false; ch = nil; worker = idle }

-- `close` panics on a nil channel and on a closed one
close : Channel → Result Channel
close nil = panic
close opened = ok closed
close closed = panic

reset : Monitor → Result Monitor
unfolding close
reset m = do ch ← close m.ch; ok (record m { running = false; ch = ch })

-- `run`: a new channel, and a goroutine
unfoldable pub run : Monitor → Monitor
run m = record { running = true; ch = opened; worker = working }

-- `select` with a `default`: a blocked sender is received from, and a closed channel gives nil
receive : Channel → Worker → Option (Option Error)
receive nil worker = none
receive closed worker = some none
receive opened idle = none
receive opened working = none
receive opened (sending e) = some e

-- the goroutine ends when its value is received
after_receive : Channel → Worker → Worker
after_receive opened (sending e) = idle
after_receive opened idle = idle
after_receive opened working = working
after_receive nil worker = worker
after_receive closed worker = worker

-- `MigrateOldIndices` once the migration runs: a value that is received is returned after a reset
complete : Monitor → Option (Option Error) → Result (Monitor × Option Error)
unfolding reset after_receive
complete m none = ok (m, none)
complete m (some e) = do m' ← reset (record m { worker = after_receive m.ch m.worker }); ok (m', e)

-- `MigrateOldIndices`: the monitor after the call and the error that it returns
unfoldable pub migrate_old_indices : Bool → Bool → Monitor → Result (Monitor × Option Error)
unfolding complete receive run
migrate_old_indices enabled ready m =
    if not enabled || not ready
    then ok (m, none)
    else if not m.running
    then ok (run m, none)
    else complete m (receive m.ch m.worker)

-- What the goroutine sends: `exists` is the outcome of `DataStreamExists`, `migrated` that of
-- `MigrateIndicesToDataStreams`, `updated` that of `UpdatePatterns`.
unfoldable pub worker_result :
    Bool → Result Bool → Option Error → Option Error → Result (Option Error)
worker_result false exists migrated updated = ok none
worker_result true (err e) migrated updated = ok (some e)
worker_result true panic migrated updated = panic
worker_result true (ok false) migrated updated = ok none
worker_result true (ok true) (some e) updated = ok (some e)
worker_result true (ok true) none updated = ok updated

-- the steps of the two sides
pub data Step (m : Monitor) : Monitor → Type 0 where
  call :
      (enabled ready : Bool) {m' : Monitor} {e : Option Error}
      → migrate_old_indices enabled ready m ≡ ok (m', e)
      → Step m m'
  finish :
      (e : Option Error) {m' : Monitor}
      → m.worker ≡ working
      → m' ≡ record m { worker = sending e }
      → Step m m'

pub data Reach : Monitor → Type 0 where
  start : Reach new_monitor
  next : {m m' : Monitor} → Reach m → Step m m' → Reach m'
