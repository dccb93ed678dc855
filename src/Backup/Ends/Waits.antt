-- ===== src/Backup/Ends/Waits.antt =====
-- `WaitRandom` of verrazzano-backup-hook/utilities/basicUtils.go in the loops that call it.
use verrazzano_monitoring_op.Prelude.{
  ℕ, ◌+◌, ◌*◌, ◌/◌, ◌≤◌, ◌<◌, String, ◌≡◌, refl, ◌⊎◌, inl, inr, some, List, arith, ltb,
  if◌then◌else◌, Bool-cases, Option-cases,
}
use verrazzano_monitoring_op.Prelude.Int.{ℤ, pos, ◌+ℤ◌, quot}
use verrazzano_monitoring_op.Prelude.Io.{Error}
use verrazzano_monitoring_op.Backup.Hook.{
  random, Outcome, ok, err, Setting, Call, Answer, Hook, pure, continue, wait_or, wait_random,
  wait_seconds, before, billion,
}
use verrazzano_monitoring_op.Backup.Ends.{Ended, Ends, continue-Ended}

-- A wait from a count of seconds on ends; where it succeeds, the timeout has not passed before it,
-- and at least a second passes.
pub record Passes (ns time : ℕ) (o : Outcome ℤ) : Type 0 where
  pub ended : Ended o
  pub early : (t : ℤ) → o ≡ ok t → time * billion < ns
  pub later : (t : ℤ) → o ≡ ok t → (u : ℕ) × (t ≡ pos u) × (time < u)

pub chosen_pos :
    (n ns : ℕ)
    → 0 < n
    → billion ≤ ns
    → (s : ℕ) × ((if ltb ns (n * billion + 0) then quot (pos ns) billion else pos n) ≡ pos s)
      × (0 < s)
unfolding quot
chosen_pos n ns h k = elim (Bool-cases (ltb ns (n * billion + 0))) [
  | inl e ↦ rw e (ns / billion, refl, omega arith)
  | inr e ↦ rw e (n, refl, h)
]

pub wait_seconds_pos :
    (number ns : ℕ) → billion ≤ ns → (s : ℕ) × (wait_seconds number (pos ns) ≡ pos s) × (0 < s)
unfolding wait_seconds
wait_seconds_pos number ns h = chosen_pos (if ltb number 10 then 17 else number) ns (ground arith) h

pub add_pos : (a b : ℕ) → pos a +ℤ pos b ≡ pos (a + b)
unfolding ◌+ℤ◌
add_pos a b = ground arith

pub added-Passes :
    (ns time : ℕ) (env : List Call → Call → Answer) (o : Outcome ℤ) (tr : List Call)
    → time * billion < ns
    → ((e : Error) × (o ≡ err e)) ⊎ ((s : ℕ) × (o ≡ ok (pos s)) × (0 < s))
    → Passes ns time (continue (λ duration. pure (pos time +ℤ duration)) env o tr).0
added-Passes ns time env o tr early (inl (e, q)) =
    rw q (record { ended = tt; early = λ t r. cc r; later = λ t r. cc r })
added-Passes ns time env o tr early (inr (s, q, h)) =
    rw (q, add_pos time s)
      (record { ended = tt; early = λ t r. early; later = λ t r. (time + s, cc r, omega arith) })

module _ (setting : Setting) (timeout : String) (ns : ℕ)
    (parsed : setting.parse_duration timeout ≡ some (pos ns)) (long : billion ≤ ns) where
  pub wait_random_pos :
      (env : List Call → Call → Answer) (tr : List Call)
      → ((e : Error) × ((wait_random setting timeout env tr).0 ≡ err e))
        ⊎ ((s : ℕ) × ((wait_random setting timeout env tr).0 ≡ ok (pos s)) × (0 < s))
  unfolding wait_random
  wait_random_pos env tr = elim (Option-cases (env tr random).error) [
    | inl e ↦
        let (s, q, h) = wait_seconds_pos (env tr random).number ns long in
        inr (s, rw (e, parsed, q) refl, h)
    | inr (e, q) ↦ inl ("Unable to generate random number", rw q refl)
  ]

  pub wait_or-Passes :
      (time : ℕ) (e : Error) (env : List Call → Call → Answer) (tr : List Call)
      → Passes ns time (wait_or setting timeout (pos ns) (pos time) e env tr).0
  unfolding wait_or
  wait_or-Passes time e env tr = elim (Bool-cases (before (pos time) (pos ns))) [
    | inl h ↦ rw h (added-Passes ns time env _ _ (ground arith) (wait_random_pos env tr))
    | inr h ↦ rw h (record { ended = tt; early = λ t r. cc r; later = λ t r. cc r })
  ]

-- What follows a wait ends, if it ends at every later time; with `rounds` more rounds.
pub waited-Ended :
    {B : Type 0} (ns time : ℕ) (f : ℤ → Hook B) (env : List Call → Call → Answer) (o : Outcome ℤ)
    (tr : List Call)
    → Passes ns time o
    → (time * billion < ns → (u : ℕ) → time < u → Ends (f (pos u)))
    → Ended (continue f env o tr).0
waited-Ended ns time f env o tr p k =
    continue-Ended f env o tr p.ended
      (λ t e. let (u, q, h) = p.later t e in rw q ((k (p.early t e) u h).ended env tr))
