-- ===== src/Backup/Ends/Loops.antt =====
-- The loops of verrazzano-backup-hook/opensearch/opensearch.go end.
use verrazzano_monitoring_op.Prelude.{
  ℕ, zero, suc, ◌+◌, ◌*◌, ◌≤◌, ◌<◌, String, ◌≡◌, refl, Option, some, List, [], ◌∷◌, arith,
}
use verrazzano_monitoring_op.Prelude.Int.{ℤ, pos}
use verrazzano_monitoring_op.Prelude.Io.{Error}
use verrazzano_monitoring_op.Backup.Hook.{
  handle, on_error, Outcome, ok, err, exit, panic, running, Setting, Call, Answer, Hook, pure,
  ◌>>=◌, continue, wait_or, billion,
}
use verrazzano_monitoring_op.Backup.Search.{
  check_restore_progress, check_snapshot_progress, restore, backup, SnapshotRequestPayload,
  ensure_open_search_is_reachable, trigger_snapshot, register_snapshot_repository, delete_data,
  trigger_restore, health_url, ensure_open_search_is_healthy, green_loop, health_loop, total_of,
  reach_loop, restore_loop, Search, http_helper, decoded, first_state, progress_step, progress_loop,
}
use verrazzano_monitoring_op.Backup.Ends.{
  Ended, Ends, Ends-pure, Ends-stop, Ends-if, Ends-bind, Ends-http,
}
use verrazzano_monitoring_op.Backup.Ends.Waits.{Passes, wait_or-Passes, waited-Ended}

handle-Ended :
    {A B : Type 0} (f : Error → Hook B) (g : A → Hook B) (env : List Call → Call → Answer)
    (o : Outcome A) (tr : List Call)
    → ((e : Error) → Ends (f e))
    → ((a : A) → Ends (g a))
    → Ended o
    → Ended (handle f g env o tr).0
handle-Ended f g env (ok a) tr h k e = (k a).ended env tr
handle-Ended f g env (err x) tr h k e = (h x).ended env tr
handle-Ended f g env exit tr h k e = tt
handle-Ended f g env panic tr h k e = tt
handle-Ended f g env running tr h k e = e

abbrev Counted : Outcome (ℤ × String) → Type 0
Counted (ok r) = (u : ℕ) × (r.0 ≡ pos u)
Counted (err e) = Unit
Counted exit = Unit
Counted panic = Unit
Counted running = ⊥

record Counts (m : Hook (ℤ × String)) : Type 0 where
  counted : (env : List Call → Call → Answer) (tr : List Call) → Counted (m env tr).0

handle-Counted :
    (f : Error → Hook (ℤ × String)) (time : ℕ) (health : Option Answer → String)
    (env : List Call → Call → Answer) (o : Outcome (Option Answer)) (tr : List Call)
    → Ended o
    → ((e : Error) → Counts (f e))
    → Counted (handle f (λ a. pure (pos time, health a)) env o tr).0
handle-Counted f time health env (ok a) tr e h = (time, refl)
handle-Counted f time health env (err x) tr e h = (h x).counted env tr
handle-Counted f time health env exit tr e h = tt
handle-Counted f time health env panic tr e h = tt
handle-Counted f time health env running tr e h = e

Counts-on_error :
    (time : ℕ) (m : Hook (Option Answer)) (f : Error → Hook (ℤ × String))
    (health : Option Answer → String)
    → Ends m
    → ((e : Error) → Counts (f e))
    → Counts (on_error m f (λ a. pure (pos time, health a)))
Counts-on_error time m f health e h = record {
  counted = λ env tr. handle-Counted f time health env (m env tr).0 (m env tr).1 (e.ended env tr) h;
}

waited-Counted :
    {ns : ℕ} (time : ℕ) (f : ℤ → Hook (ℤ × String)) (env : List Call → Call → Answer)
    (o : Outcome ℤ) (tr : List Call)
    → Passes ns time o
    → (time * billion < ns → (u : ℕ) → time < u → Counts (f (pos u)))
    → Counted (continue f env o tr).0
waited-Counted time f env (ok t) tr p k =
    let (u, q, h) = p.later t refl in rw q ((k (p.early t refl) u h).counted env tr)
waited-Counted time f env (err e) tr p k = tt
waited-Counted time f env exit tr p k = tt
waited-Counted time f env panic tr p k = tt
waited-Counted time f env running tr p k = p.ended

Counts-wait :
    {ns : ℕ} (time : ℕ) (m : Hook ℤ) (f : ℤ → Hook (ℤ × String))
    → ((env : List Call → Call → Answer) (tr : List Call) → Passes ns time (m env tr).0)
    → (time * billion < ns → (u : ℕ) → time < u → Counts (f (pos u)))
    → Counts (m >>= f)
Counts-wait time m f p k = record {
  counted = λ env tr. waited-Counted time f env (m env tr).0 (m env tr).1 (p env tr) k;
}

limit_of_count :
    {B : Type 0} (k : ℤ × String → Hook B) (env : List Call → Call → Answer)
    (o : Outcome (ℤ × String)) (tr : List Call)
    → Counted o
    → ((u : ℕ) (health : String) → Ends (k (pos u, health)))
    → Ended (continue k env o tr).0
limit_of_count k env (ok (t, health)) tr (u, q) h = rw q ((h u health).ended env tr)
limit_of_count k env (err e) tr c h = tt
limit_of_count k env exit tr c h = tt
limit_of_count k env panic tr c h = tt
limit_of_count k env running tr c h = c

Ends-counted :
    {B : Type 0} (m : Hook (ℤ × String)) (k : ℤ × String → Hook B)
    → Counts m
    → ((u : ℕ) (health : String) → Ends (k (pos u, health)))
    → Ends (m >>= k)
Ends-counted m k c h = record {
  ended = λ env tr. limit_of_count k env (m env tr).0 (m env tr).1 (c.counted env tr) h;
}

module _ (setting : Setting) (o : Search) (ns : ℕ)
    (parsed : setting.parse_duration o.secret_data.velero_timeout ≡ some (pos ns))
    (long : billion ≤ ns) where
  -- One more wait in a loop that has enough rounds.
  Ends-wait :
      {B : Type 0} (rounds time : ℕ) (e : Error) (f : ℤ → Hook B)
      → ns + billion ≤ (time + suc rounds) * billion
      → ((u : ℕ) → 0 < rounds → ns + billion ≤ (u + rounds) * billion → Ends (f (pos u)))
      → Ends (wait_or setting o.secret_data.velero_timeout (pos ns) (pos time) e >>= f)
  Ends-wait rounds time e f enough k = record {
    ended = λ env tr.
        waited-Ended ns time f env _ _
          (wait_or-Passes setting o.secret_data.velero_timeout ns parsed long time e env tr)
          (λ early u h. k u (omega arith) (omega arith));
  }

  Ends-first_state : (states : List String) → Ends (first_state states)
  Ends-first_state [] = Ends-stop panic tt
  Ends-first_state (state ∷ states) = Ends-pure state

  Ends-step :
      (rounds time : ℕ) (again : ℤ → Hook (Unit {0}))
      → ns + billion ≤ (time + suc rounds) * billion
      → ((u : ℕ) → 0 < rounds → ns + billion ≤ (u + rounds) * billion → Ends (again (pos u)))
      → (state : String) → Ends (progress_step setting o again (pos ns) (pos time) state)
  unfolding progress_step
  Ends-step rounds time again enough k state =
      Ends-if _ _ _ (Ends-wait rounds time _ again enough k)
        (Ends-if _ _ _ (Ends-pure tt) (Ends-stop (err _) tt))

  pub Ends-progress :
      (rounds time : ℕ) (states : List String)
      → 0 < rounds
      → ns + billion ≤ (time + rounds) * billion
      → Ends (progress_loop setting o rounds (pos ns) (pos time) states)
  unfolding progress_loop
  Ends-progress zero time states h enough = elim h [ ]
  Ends-progress (suc rounds) time states h enough =
      Ends-bind _ _ (Ends-http setting o "GET" _ "") (λ answer.
        Ends-bind _ _ (Ends-first_state (decoded (λ a. a.snapshots) answer states)) (
          Ends-step rounds time _ enough (λ u more enough'. Ends-progress rounds u _ more enough')))

  Ends-restoring :
      (rounds time : ℕ) (streams : List String)
      → 0 < rounds
      → ns + billion ≤ (time + rounds) * billion
      → Ends (restore_loop setting o rounds (pos ns) (pos time) streams)
  unfolding restore_loop
  Ends-restoring zero time streams h enough = elim h [ ]
  Ends-restoring (suc rounds) time streams h enough =
      Ends-bind _ _ (Ends-http setting o "GET" _ "") (λ answer.
        Ends-if _ _ _
          (Ends-wait rounds time _ _ enough
            (λ u more enough'. Ends-restoring rounds u _ more enough'))
          (Ends-pure tt))

  Ends-on_error :
      {B : Type 0} (f : Error → Hook B) (g : Option Answer → Hook B) (method url body : String)
      → ((e : Error) → Ends (f e))
      → ((a : Option Answer) → Ends (g a))
      → Ends (on_error (http_helper setting o method url body) f g)
  Ends-on_error f g method url body h k = record {
    ended = λ env tr.
        handle-Ended f g env (http_helper setting o method url body env tr).0 _ h k
          ((Ends-http setting o method url body).ended env tr);
  }

  Ends-reach :
      (rounds time : ℕ)
      → 0 < rounds
      → ns + billion ≤ (time + rounds) * billion
      → Ends (reach_loop setting o rounds (pos ns) (pos time))
  unfolding reach_loop
  Ends-reach zero time h enough = elim h [ ]
  Ends-reach (suc rounds) time h enough =
      Ends-on_error _ _ _ _ _
        (λ e. Ends-wait rounds time _ _ enough (λ u more enough'. Ends-reach rounds u more enough'))
        (λ a. Ends-pure tt)

  -- The first loop ends, and leaves with a time that is no negative number.
  Counts-health :
      (rounds time : ℕ)
      → 0 < rounds
      → ns + billion ≤ (time + rounds) * billion
      → Counts (health_loop setting o rounds (pos ns) (pos time))
  unfolding health_loop
  Counts-health zero time h enough = elim h [ ]
  Counts-health (suc rounds) time h enough =
      Counts-on_error time _ _ _ (Ends-http setting o "GET" (health_url setting o) "") (λ e.
        Counts-wait time _ _
          (wait_or-Passes setting o.secret_data.velero_timeout ns parsed long time e)
          (λ early u later. Counts-health rounds u (omega arith) (omega arith)))

  Ends-green :
      (rounds time : ℕ) (health : String)
      → 0 < rounds
      → ns + billion ≤ (time + rounds) * billion
      → Ends (green_loop setting o rounds (pos ns) (pos time) health)
  unfolding green_loop
  Ends-green zero time health h enough = elim h [ ]
  Ends-green (suc rounds) time health h enough =
      Ends-on_error _ _ _ _ _
        (λ e.
          Ends-wait rounds time _ _ enough (λ u more enough'. Ends-green rounds u _ more enough'))
        (λ a.
          Ends-if _ _ _
            (Ends-wait rounds time _ _ enough
              (λ u more enough'. Ends-green rounds u _ more enough'))
            (Ends-pure tt))

  Ends-total : {B : Type 0} (f : ℤ → Hook B) → Ends (f (pos ns)) → Ends (total_of setting o >>= f)
  unfolding total_of
  Ends-total f h = rw parsed h

  Ends-both :
      (rounds : ℕ)
      → 0 < rounds
      → ns + billion ≤ rounds * billion
      → Ends (
          health_loop setting o rounds (pos ns) (pos 0) >>= λ reached.
          green_loop setting o rounds (pos ns) reached.0 reached.1)
  Ends-both rounds h enough =
      Ends-counted (health_loop setting o rounds (pos ns) (pos 0))
        (λ reached. green_loop setting o rounds (pos ns) reached.0 reached.1)
        (Counts-health rounds 0 h (omega arith))
        (λ u health. Ends-green rounds u health h (omega arith))

  Ends-registered :
      (serialize : SnapshotRequestPayload → Outcome String)
      → ((p : SnapshotRequestPayload) → Ended (serialize p))
      → Ends (register_snapshot_repository setting o serialize)
  unfolding register_snapshot_repository
  Ends-registered serialize h = Ends-bind _ _ (Ends-stop _ (h _)) (λ body.
      Ends-bind _ _ (Ends-http setting o "POST" _ body)
        (λ a. Ends-if _ _ _ (Ends-pure tt) (Ends-stop (err _) tt)))

  Ends-triggered : Ends (trigger_snapshot setting o)
  unfolding trigger_snapshot
  Ends-triggered =
      Ends-bind _ _ (Ends-http setting o "POST" _ "")
        (λ a. Ends-if _ _ _ (Ends-stop (err _) tt) (Ends-pure tt))

  Ends-deleted : Ends (delete_data setting o)
  unfolding delete_data
  Ends-deleted = Ends-bind _ _ (Ends-http setting o "DELETE" _ "") (λ a.
      Ends-if _ _ _ (Ends-stop (err _) tt) (
        Ends-bind _ _ (Ends-http setting o "DELETE" _ "")
          (λ b. Ends-if _ _ _ (Ends-stop (err _) tt) (Ends-pure tt))))

  Ends-restored : (body : Outcome String) → Ended body → Ends (trigger_restore setting o body)
  unfolding trigger_restore
  Ends-restored body h = Ends-bind _ _ (Ends-stop body h) (λ text.
      Ends-bind _ _ (Ends-http setting o "POST" _ text)
        (λ a. Ends-if _ _ _ (Ends-stop (err _) tt) (Ends-pure tt)))

  -- With a timeout of a second or more, and as many rounds as it has seconds and one or two more, no
  -- loop is left running: the check of the health, a backup and a restore end, whatever OpenSearch
  -- answers, as long as the marshalling of their requests does.
  pub backup_and_restore_end :
      (rounds : ℕ) (serialize : SnapshotRequestPayload → Outcome String)
      (restore_body : Outcome String)
      → ns + billion ≤ rounds * billion
      → ((p : SnapshotRequestPayload) → Ended (serialize p))
      → Ended restore_body
      → Ends (ensure_open_search_is_healthy setting o rounds)
        × Ends (backup setting o rounds serialize)
        × Ends (restore setting o rounds serialize restore_body)
  unfolding ensure_open_search_is_healthy ensure_open_search_is_reachable backup restore
      check_snapshot_progress check_restore_progress
  backup_and_restore_end rounds serialize restore_body enough h k =
      let more : 0 < rounds = omega arith in
      (
        Ends-bind _ _
            (Ends-if _ _ _ (Ends-pure tt) (Ends-total _ (Ends-reach rounds 0 more (omega arith))))
            (λ u. Ends-total _ (Ends-if _ _ _ (Ends-pure tt) (Ends-both rounds more enough))),
        Ends-bind _ _ (Ends-registered serialize h) (λ u. Ends-bind _ _ Ends-triggered (λ v.
            Ends-if _ _ _ (Ends-pure tt)
              (Ends-total _ (Ends-progress rounds 0 [] more (omega arith))))),
        Ends-bind _ _ (Ends-registered serialize h) (λ u. Ends-bind _ _ Ends-deleted (λ v.
            Ends-bind _ _ (Ends-restored restore_body k) (λ w.
              Ends-if _ _ _ (Ends-pure tt)
                (Ends-total _ (Ends-restoring rounds 0 [] more (omega arith)))))),
      )
