-- ===== src/Monitor/Safety.antt =====
-- What holds of the monitor of pkg/upgrade/upgrade.go in every order of calls and of the goroutine.
use verrazzano_monitoring_op.Prelude.{◌≡◌, refl, sym, ap, ◌∙◌, Bool, true, false, Option, none}
use verrazzano_monitoring_op.Prelude.Io.{Error, Result, ok, err, panic}
use verrazzano_monitoring_op.Monitor.{
  Worker, idle, working, sending, Channel, nil, opened, closed, Monitor, run, migrate_old_indices,
  call, finish, Reach, start, next,
}

-- a running monitor has an open channel and a goroutine, and one that does not run has none
abbrev Fits : Bool → Channel → Worker → Type 0
Fits true opened working = Unit {0}
Fits true opened (sending e) = Unit {0}
Fits false ch idle = Unit {0}
Fits running ch worker = ⊥

call_lem :
    (enabled ready running : Bool) (ch : Channel) (worker : Worker)
    → Fits running ch worker
    → (m' : Monitor) × (e : Option Error) × (migrate_old_indices enabled ready
          (record { running = running; ch = ch; worker = worker })
        ≡ ok (m', e))
      × Fits m'.running m'.ch m'.worker
unfolding migrate_old_indices
call_lem false ready running ch worker f = (_, _, refl, f)
call_lem true false running ch worker f = (_, _, refl, f)
call_lem true true true opened working f = (_, _, refl, tt)
call_lem true true true opened (sending e) f = (_, _, refl, tt)
call_lem true true true opened idle f = elim f [ ]
call_lem true true true nil worker f = elim f [ ]
call_lem true true true closed worker f = elim f [ ]
call_lem true true false ch idle f = (_, _, refl, tt)
call_lem true true false ch working f = elim f [ ]
call_lem true true false ch (sending e) f = elim f [ ]

same_pair :
    {m m' : Monitor} {e e' : Option Error}
    → ◌≡◌ {A = Result (Monitor × Option Error)} (ok (m, e)) (ok (m', e'))
    → m ≡ m'
same_pair {m} q = ap (λ (r : Result (Monitor × Option Error)). monitor_of m r) q
  where
    monitor_of : Monitor → Result (Monitor × Option Error) → Monitor
    monitor_of d (ok (a, b)) = a
    monitor_of d (err e) = d
    monitor_of d panic = d

finish_lem :
    (running : Bool) (ch : Channel) (worker : Worker) (e : Option Error)
    → worker ≡ working
    → Fits running ch worker
    → Fits running ch (sending e)
finish_lem true opened working e w f = tt
finish_lem true opened (sending e') e w f = tt
finish_lem true opened idle e w f = elim f [ ]
finish_lem true nil worker e w f = elim f [ ]
finish_lem true closed worker e w f = elim f [ ]
finish_lem false ch idle e w f = cc
finish_lem false ch working e w f = elim f [ ]
finish_lem false ch (sending e') e w f = elim f [ ]

Reach-Fits : {m : Monitor} → Reach m → Fits m.running m.ch m.worker
Reach-Fits start = tt
Reach-Fits (next {m} r (call enabled ready h)) =
    let (m'', e', h', f) = call_lem enabled ready m.running m.ch m.worker (Reach-Fits r) in
    rw (same_pair (sym h' ∙ h)) at f
Reach-Fits (next {m} r (finish e w q)) =
    rw q (finish_lem m.running m.ch m.worker e w (Reach-Fits r))

-- In every order of calls and of the goroutine's progress, a call of `MigrateOldIndices` does not
-- panic: it closes no channel that is nil or closed already.
pub monitor_never_panics :
    {m : Monitor} (r : Reach m) (enabled ready : Bool)
    → (m' : Monitor) × (e : Option Error) × (migrate_old_indices enabled ready m ≡ ok (m', e))
monitor_never_panics {m} r enabled ready =
    let (m', e, h, f) = call_lem enabled ready m.running m.ch m.worker (Reach-Fits r) in (m', e, h)

waiting_lem :
    (running : Bool) (ch : Channel) (worker : Worker) (e : Option Error)
    → worker ≡ sending e
    → Fits running ch worker
    → migrate_old_indices true true (record { running = running; ch = ch; worker = worker })
      ≡ ok (record { running = false; ch = closed; worker = idle }, e)
unfolding migrate_old_indices
waiting_lem true opened (sending e') e w f = cc
waiting_lem true opened working e w f = cc
waiting_lem true opened idle e w f = elim f [ ]
waiting_lem true nil worker e w f = elim f [ ]
waiting_lem true closed worker e w f = elim f [ ]
waiting_lem false ch idle e w f = cc
waiting_lem false ch working e w f = elim f [ ]
waiting_lem false ch (sending e') e w f = elim f [ ]

busy_lem :
    (running : Bool) (ch : Channel) (worker : Worker)
    → worker ≡ working
    → Fits running ch worker
    → migrate_old_indices true true (record { running = running; ch = ch; worker = worker })
      ≡ ok (record { running = running; ch = ch; worker = worker }, none)
unfolding migrate_old_indices
busy_lem true opened working w f = refl
busy_lem true opened (sending e') w f = cc
busy_lem true opened idle w f = elim f [ ]
busy_lem true nil worker w f = elim f [ ]
busy_lem true closed worker w f = elim f [ ]
busy_lem false ch idle w f = cc
busy_lem false ch working w f = elim f [ ]
busy_lem false ch (sending e') w f = elim f [ ]

-- While the goroutine works, a call that finds OpenSearch enabled and ready changes nothing and
-- starts no second goroutine.
pub monitor_waits :
    {m : Monitor} → Reach m → m.worker ≡ working → migrate_old_indices true true m ≡ ok (m, none)
monitor_waits {m} r w = busy_lem m.running m.ch m.worker w (Reach-Fits r)

-- Once the goroutine waits to send its result, the next call that finds OpenSearch enabled and ready
-- returns exactly that result and ends the run, and the call after it starts a new one.
pub monitor_reports :
    {m : Monitor} (r : Reach m) (e : Option Error)
    → m.worker ≡ sending e
    → (m' : Monitor) × (migrate_old_indices true true m ≡ ok (m', e))
      × (migrate_old_indices true true m' ≡ ok (run m', none))
unfolding migrate_old_indices run
monitor_reports {m} r e w = (
  record { running = false; ch = closed; worker = idle },
  waiting_lem m.running m.ch m.worker e w (Reach-Fits r),
  refl,
)
