-- ===== src/Backup/Ends.antt =====
-- Steps of verrazzano-backup-hook that end, and a rule for each way to build them.
pub mod Waits
pub mod Loops
use verrazzano_monitoring_op.Prelude.{
  ℕ, zero, suc, ◌+◌, ◌*◌, ◌/◌, ◌≤◌, ◌<◌, String, ◌≡◌, refl, ◌⊎◌, inl, inr, Bool, true, false,
  Option, none, some, List, [], ◌∷◌, arith, ltb, if◌then◌else◌, Bool-cases, Option-cases,
}
use verrazzano_monitoring_op.Prelude.Int.{ℤ, pos, ◌+ℤ◌, quot}
use verrazzano_monitoring_op.Prelude.Io.{Error}
use verrazzano_monitoring_op.Backup.Hook.{
  handle, on_error, random, Outcome, ok, err, exit, panic, running, Setting, Call, http, Answer,
  Hook, pure, stop, ◌>>=◌, continue, call, check_error, ask, some_or_exit, some_or_raise, wait_or,
  wait_random, wait_seconds, before, billion,
}
use verrazzano_monitoring_op.Backup.Search.{
  check_restore_progress, check_snapshot_progress, restore, backup, SnapshotRequestPayload,
  ensure_open_search_is_reachable, trigger_snapshot, register_snapshot_repository, delete_data,
  trigger_restore, health_url, ensure_open_search_is_healthy, green_loop, health_loop, total_of,
  reach_loop, restore_loop, Search, http_helper, decoded, first_state, progress_loop,
}

-- the outcome is not that of a loop that goes on
abbrev pub Ended {ℓ} : {A : Type ℓ} → Outcome A → Type 0
Ended (ok a) = Unit
Ended (err e) = Unit
Ended exit = Unit
Ended panic = Unit
Ended running = ⊥

-- Whatever is answered, the step ends.
pub record Ends {ℓ} {A : Type ℓ} (m : Hook A) : Type ℓ where
  pub ended : (env : List Call → Call → Answer) (tr : List Call) → Ended (m env tr).0

module _ {ℓ} {A : Type ℓ} where
  pub Ends-pure : (a : A) → Ends (pure a)
  Ends-pure a = record { ended = λ env tr. tt }

  pub Ends-stop : (o : Outcome A) → Ended o → Ends (stop o)
  Ends-stop o h = record { ended = λ env tr. h }

  pub Ends-if : (b : Bool) (m n : Hook A) → Ends m → Ends n → Ends (if b then m else n)
  Ends-if true m n h k = h
  Ends-if false m n h k = k

  pub Ends-raise : (e : Error) (o : Option A) → Ends (some_or_raise e o)
  Ends-raise e none = record { ended = λ env tr. tt }
  Ends-raise e (some a) = record { ended = λ env tr. tt }

  pub Ends-exit : (o : Option A) → Ends (some_or_exit o)
  Ends-exit none = record { ended = λ env tr. tt }
  Ends-exit (some a) = record { ended = λ env tr. tt }

module _ {ℓ} {A B : Type ℓ} where
  pub continue-Ended :
      (f : A → Hook B) (env : List Call → Call → Answer) (o : Outcome A) (tr : List Call)
      → Ended o
      → ((a : A) → o ≡ ok a → Ended (f a env tr).0)
      → Ended (continue f env o tr).0
  continue-Ended f env (ok a) tr h k = k a refl
  continue-Ended f env (err e) tr h k = tt
  continue-Ended f env exit tr h k = tt
  continue-Ended f env panic tr h k = tt
  continue-Ended f env running tr h k = h

  pub Ends-bind : (m : Hook A) (f : A → Hook B) → Ends m → ((a : A) → Ends (f a)) → Ends (m >>= f)
  Ends-bind m f h k = record {
    ended = λ env tr.
        continue-Ended f env (m env tr).0 (m env tr).1 (h.ended env tr)
          (λ a e. (k a).ended env (m env tr).1);
  }

pub Ends-check_error : (o : Option Error) → Ends (check_error o)
Ends-check_error none = Ends-pure tt
Ends-check_error (some e) = Ends-stop (err e) tt

pub Ends-ask : (c : Call) → Ends (ask c)
unfolding ask
Ends-ask c =
    Ends-bind (call c) _ (record { ended = λ env tr. tt })
      (λ answer.
        Ends-bind (check_error answer.error) _ (Ends-check_error answer.error)
          (λ u. Ends-pure answer))

pub Ends-http :
    (setting : Setting) (o : Search) (method url body : String)
    → Ends (http_helper setting o method url body)
unfolding http_helper
Ends-http setting o method url body =
    Ends-bind _ _ (Ends-exit (setting.parse_duration o.timeout)) (λ d.
      Ends-bind _ _ (Ends-check_error (setting.request_error url)) (λ u.
        Ends-bind _ _ (Ends-ask (http method url body)) (λ answer.
          Ends-bind _ _ (Ends-check_error answer.read_error) (λ v. Ends-if _ _ _ (Ends-pure none) (
            Ends-bind _ _ (Ends-check_error answer.decode_error) (λ w. Ends-pure (some answer)))))))
