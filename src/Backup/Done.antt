-- ===== src/Backup/Done.antt =====
-- What a backup that reports success has seen: verrazzano-backup-hook/opensearch/opensearch.go.
use verrazzano_monitoring_op.Prelude.{
  ℕ, zero, suc, String, ◌≡◌, refl, sym, ap, ◌∙◌, ◌⊎◌, inl, inr, false, Option, none, some, List, [],
  ◌∷◌, ◌++◌, arith, eq_iff, ◌=ₜ◌, Bool-cases,
}
use verrazzano_monitoring_op.Prelude.Int.{ℤ, pos}
use verrazzano_monitoring_op.Prelude.Io.{Error}
use verrazzano_monitoring_op.Backup.Hook.{
  wait_or, kept, Outcome, ok, err, exit, panic, running, Setting, Call, http, Answer, Hook, ◌>>=◌,
  continue, check_error, ask,
}
use verrazzano_monitoring_op.Backup.Search.{
  trigger_snapshot, total_of, register_snapshot_repository, is_dev, SnapshotRequestPayload, backup,
  check_snapshot_progress, snapshot_url, progress_loop, decoded, first_state, progress_step, Search,
  http_helper,
}

continue_ok :
    {A B : Type 0} (f : A → Hook B) (env : List Call → Call → Answer) (b : B) (end : List Call)
    (o : Outcome A) (mid : List Call)
    → continue f env o mid ≡ (ok b, end)
    → (a : A) × (o ≡ ok a) × (f a env mid ≡ (ok b, end))
continue_ok f env b end (ok a) mid k = (a, refl, k)
continue_ok f env b end (err e) mid k = cc (ap (λ r. r.0) k)
continue_ok f env b end exit mid k = cc (ap (λ r. r.0) k)
continue_ok f env b end panic mid k = cc (ap (λ r. r.0) k)
continue_ok f env b end running mid k = cc (ap (λ r. r.0) k)

-- the two parts of a step that succeeds
pub bind_ok :
    {A B : Type 0} (m : Hook A) (f : A → Hook B) (env : List Call → Call → Answer) (tr : List Call)
    (b : B) (end : List Call)
    → (m >>= f) env tr ≡ (ok b, end)
    → (a : A) × ((m env tr).0 ≡ ok a) × (f a env (m env tr).1 ≡ (ok b, end))
bind_ok m f env tr b end h = continue_ok f env b end (m env tr).0 (m env tr).1 h

pair : {A : Type 0} {o : A} {r : A × List Call} → r.0 ≡ o → r ≡ (o, r.1)
pair h = ground (arith)

pub check_ok :
    (o : Option Error) (env : List Call → Call → Answer) (tr : List Call) (u : Unit {0})
    → (check_error o env tr).0 ≡ ok u
    → o ≡ none
check_ok none env tr u h = refl
check_ok (some e) env tr u h = cc

-- a call of `HTTPHelper` that returns no error
http_ok :
    (setting : Setting) (o : Search) (method url body : String) (env : List Call → Call → Answer)
    (tr : List Call) (r : Option Answer) (end : List Call)
    → http_helper setting o method url body env tr ≡ (ok r, end)
    → (end ≡ tr ++ http method url body ∷ [])
      × ((r ≡ none)
          ⊎ ((r ≡ some (env tr (http method url body)))
              × ((env tr (http method url body)).status ≡ 200)
              × ((env tr (http method url body)).decode_error ≡ none)))
unfolding http_helper ask
http_ok setting o method url body env tr r end h = ground arith

-- The answer has been decoded, and says that the first snapshot is complete.
pub record SaysSuccess (answer : Answer) : Type 0 where
  pub status : answer.status ≡ 200
  pub decode_error : answer.decode_error ≡ none
  pub rest : List String
  pub snapshots : answer.snapshots ≡ some ("SUCCESS" ∷ rest)

-- the states that the loop has seen do not say so
abbrev Pending : List String → Type 0
Pending [] = Unit
Pending (state ∷ states) = state ≡ "IN_PROGRESS"

first_ok :
    (states : List String) (env : List Call → Call → Answer) (tr : List Call) (state : String)
    → (first_state states env tr).0 ≡ ok state
    → (rest : List String) × (states ≡ state ∷ rest) × ((first_state states env tr).1 ≡ tr)
first_ok [] env tr state h = cc
first_ok (s ∷ ss) env tr state h = (ss, ground arith, refl)

not_both : (s : String) → s ≡ "IN_PROGRESS" → s ≡ "SUCCESS" → ⊥
not_both s h k = cc (ap (λ t. t =ₜ "SUCCESS") (sym h ∙ k))

-- states that do not say so are not those of success
stale : (states rest : List String) → Pending states → states ≡ "SUCCESS" ∷ rest → ⊥
stale [] rest p e = cc
stale (s ∷ ss) rest p e = not_both s p (ground arith)

from_field :
    (answer : Answer) (field : Option (List String)) (states rest : List String)
    → answer.snapshots ≡ field
    → answer.status ≡ 200
    → answer.decode_error ≡ none
    → Pending states
    → kept field states ≡ "SUCCESS" ∷ rest
    → SaysSuccess answer
from_field answer none states rest q status d p e = absurd (stale states rest p e)
from_field answer (some w) states rest q status d p e = record {
  status = status;
  decode_error = d;
  rest = rest;
  snapshots = q ∙ ap (λ v. some v) e;
}

-- a first state of success is the answer's
fresh :
    (answer : Answer) (r : Option Answer) (states rest : List String)
    → Pending states
    → (r ≡ none) ⊎ ((r ≡ some answer) × (answer.status ≡ 200) × (answer.decode_error ≡ none))
    → decoded (λ a. a.snapshots) r states ≡ "SUCCESS" ∷ rest
    → SaysSuccess answer
fresh answer r states rest p (inl q) e = absurd (stale states rest p (rw q at e))
fresh answer r states rest p (inr (q, status, d)) e =
    from_field answer answer.snapshots states rest refl status d p (rw q at e)

module _ (setting : Setting) (o : Search) (env : List Call → Call → Answer) where
  -- the last call, and what it answered
  pub record Seen (trace : List Call) : Type 0 where
    pub before : List Call
    pub last : trace ≡ before ++ http "GET" (snapshot_url setting o) "" ∷ []
    pub says : SaysSuccess (env before (http "GET" (snapshot_url setting o) ""))

  step-Seen :
      (again : ℤ → Hook (Unit {0})) (total time : ℤ) (state : String) (tr end : List Call)
      → progress_step setting o again total time state env tr ≡ (ok tt, end)
      → ((t : ℤ) (tr' : List Call)
          → state ≡ "IN_PROGRESS"
          → again t env tr' ≡ (ok tt, end)
          → Seen end)
      → (state ≡ "SUCCESS" → tr ≡ end → Seen end)
      → Seen end
  unfolding progress_step
  step-Seen again total time state tr end h k done = elim (Bool-cases (state =ₜ "IN_PROGRESS")) [
    | inl e ↦
        let (t, et, more) =
          bind_ok
            (wait_or setting o.secret_data.velero_timeout total time
              "VeleroTimeout exceeded. Snapshot state is still IN_PROGRESS")
            again env tr tt end (rw e at h) in
        k t _ ((eq_iff state "IN_PROGRESS").0 e) more
    | inr e ↦ elim (Bool-cases (state =ₜ "SUCCESS")) [
      | inl f ↦ done ((eq_iff state "SUCCESS").0 f) (ap (λ r. r.1) (rw (e, f) at h))
      | inr f ↦ cc (ap (λ r. r.0) (rw (e, f) at h))
    ]
  ]

  abbrev next : ℕ → ℤ → ℤ → List String → Option Answer → Hook (Unit {0})
  next rounds total time states answer =
      let states' = decoded (λ a. a.snapshots) answer states in
      first_state states'
      >>= progress_step setting o (λ t. progress_loop setting o rounds total t states') total time

  progress-Seen :
      (rounds : ℕ) (total time : ℤ) (states : List String) (tr end : List Call)
      → Pending states
      → progress_loop setting o rounds total time states env tr ≡ (ok tt, end)
      → Seen end
  unfolding progress_loop
  progress-Seen zero total time states tr end p h = cc (ap (λ r. r.0) h)
  progress-Seen (suc rounds) total time states tr end p h =
      let url = snapshot_url setting o in
      let (r, er, k) =
        bind_ok (http_helper setting o "GET" url "") (next rounds total time states) env tr tt end
          h in
      let (mid, seen) =
        http_ok setting o "GET" url "" env tr r (http_helper setting o "GET" url "" env tr).1
          (pair er) in
      let states' : List String = decoded (λ a. a.snapshots) r states in
      let again : ℤ → Hook (Unit {0}) = λ t. progress_loop setting o rounds total t states' in
      let (state, es, k') =
        bind_ok (first_state states') (progress_step setting o again total time) env
          (http_helper setting o "GET" url "" env tr).1 tt end k in
      let (rest, first, same) =
        first_ok states' env (http_helper setting o "GET" url "" env tr).1 state es in
      step-Seen again total time state
        (first_state states' env (http_helper setting o "GET" url "" env tr).1).1 end k'
        (λ t tr' e more. progress-Seen rounds total t states' tr' end (rw first e) more)
        (λ e q. record {
          before = tr;
          last = sym q ∙ same ∙ mid;
          says =
              fresh (env tr (http "GET" url "")) r states rest p seen
                (first ∙ ap (λ s. s ∷ rest) e);
        })

  checked-Seen :
      (rounds : ℕ) (tr end : List Call)
      → is_dev setting ≡ false
      → check_snapshot_progress setting o rounds env tr ≡ (ok tt, end)
      → Seen end
  unfolding check_snapshot_progress
  checked-Seen rounds tr end live h =
      let (total, et, more) =
        bind_ok (total_of setting o) (λ total. progress_loop setting o rounds total (pos 0) []) env
          tr tt end (rw live at h) in
      progress-Seen rounds total (pos 0) [] (total_of setting o env tr).1 end tt more

  -- A backup that reports success, where the hook is not run for tests, has made a query for the
  -- snapshot as its last call, and the answer was decoded and says that the snapshot is complete.
  pub backup_done :
      (rounds : ℕ) (serialize : SnapshotRequestPayload → Outcome String) (tr : List Call)
      → is_dev setting ≡ false
      → (backup setting o rounds serialize env tr).0 ≡ ok tt
      → Seen (backup setting o rounds serialize env tr).1
  unfolding backup
  backup_done rounds serialize tr live h =
      let end : List Call = (backup setting o rounds serialize env tr).1 in
      let (u, eu, k) =
        bind_ok (register_snapshot_repository setting o serialize)
          (λ u. trigger_snapshot setting o >>= λ v. check_snapshot_progress setting o rounds) env tr
          tt end (pair h) in
      let (v, ev, k') =
        bind_ok (trigger_snapshot setting o) (λ v. check_snapshot_progress setting o rounds) env
          (register_snapshot_repository setting o serialize env tr).1 tt end k in
      checked-Seen rounds
        (trigger_snapshot setting o env
          (register_snapshot_repository setting o serialize env tr).1).1
        end live k'
