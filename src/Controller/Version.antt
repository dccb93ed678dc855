-- ===== src/Controller/Version.antt =====
-- When `syncHandlerStandardMode` of pkg/vmo/controller.go sets the version of an instance.
use mathlib.Core.Path.{subst}
use verrazzano_monitoring_op.Prelude.{
  if◌then◌else◌, List, Bool, false, not, ◌&&◌, ◌||◌, ◌=ₜ◌, String, ℕ, ◌≡◌, refl, ◌∙◌, true,
}
use verrazzano_monitoring_op.Prelude.Io.{Result, ok, lift, pure, attempt, continue, ◌>>=◌}
use verrazzano_monitoring_op.Prelude.Io.Ensures.{bind_ok, Ensures, Ensures-pure, Ensures-then}
use verrazzano_monitoring_op.Server.{Client, Call, Reply, Config, ask, get_secret}
use verrazzano_monitoring_op.Vmi.{Vmi}
use verrazzano_monitoring_op.VmoSpec.Version.{initialised}
use verrazzano_monitoring_op.VmoSpec.{initialize_vmo_spec}
use verrazzano_monitoring_op.Controller.Stages.{Stages, SameVersion}
use verrazzano_monitoring_op.Controller.Sync.{
  populate_cluster_info, start, Controller, hash_of, set_hash, sync_handler_standard_mode,
  sync_unlocked, advance_version, perform_all, State, statements,
}
use verrazzano_monitoring_op.Controller.Kept.{all_kept}
use verrazzano_monitoring_op.Controller.Dirty.{Blocked}
use verrazzano_monitoring_op.Controller.Hindered.{Hindered, blocked, statements-Ordered}

module _ (stages : Stages) (diff_vmi : Vmi → Vmi → String) (hash : Vmi → Result ℕ) where
  -- what `advance_version` asks for
  held : (b d : Bool) (v w : Bool) → (b || d) ≡ true → (not b && not d && v && w) ≡ false
  held true d v w h = refl
  held false true v w h = refl
  held false false v w h = absurd (cc)

  unadvanced :
      (s : State)
      → Blocked s
      → Ensures (λ s'. SameVersion s.vmo s'.vmo) (advance_version stages diff_vmi hash s)
  unfolding advance_version
  unadvanced s h =
      let version = s.controller.build_version in
      rw
        (held s.error_observed s.deployments_dirty (not (version =ₜ ""))
          (not (s.vmo.spec.current_version =ₜ version)) h)
        (Ensures-pure s refl)

  hashed : (s : State) → Ensures (λ s'. SameVersion s.vmo s'.vmo) (set_hash stages diff_vmi hash s)
  unfolding set_hash
  hashed s =
      Ensures-then (hash_of stages diff_vmi hash (hash s.vmo))
        (λ h. pure (record s { vmo = record s.vmo { status = record s.vmo.status { hash = h } } }))
        (λ h. Ensures-pure _ refl)

  Ensures-initialised :
      (config : Config) (now : String) (vmo : Vmi)
      → Ensures
          (λ v. SameVersion vmo v)
          (lift {C = Call} {R = Reply} (initialize_vmo_spec config now vmo))
  Ensures-initialised config now vmo = record { holds = λ env tr v e. initialised config now vmo e }

  unlocked_waits :
      (now : String) (c : Controller) (vmo v : Vmi) (env : List Call → Call → Reply)
      (mid : List Call) (last : State)
      → initialize_vmo_spec c.config now vmo ≡ ok v
      → Hindered stages diff_vmi hash vmo statements (start c v) env mid
      → (sync_unlocked stages diff_vmi hash now vmo c env mid).0 ≡ ok last
      → SameVersion vmo last.vmo
  unfolding sync_unlocked
  unlocked_waits now c vmo v env mid last ready hindered e =
      let m = perform_all stages diff_vmi hash vmo statements (start c v) in
      let f : State → Client State =
        λ s. advance_version stages diff_vmi hash s >>= set_hash stages diff_vmi hash in
      let run : ((m >>= f) env mid).0 ≡ ok last =
        subst
          (λ (r : Result Vmi).
            (continue (λ v. perform_all stages diff_vmi hash vmo statements (start c v) >>= f) env r
              mid).0
            ≡ ok last)
          ready e in
      let (s, performed, rest) = bind_ok m f env mid last run in
      let held_back =
        blocked stages diff_vmi hash vmo statements (start c v) env mid s
          (statements-Ordered stages diff_vmi hash) hindered performed in
      let (s', advanced, end) =
        bind_ok (advance_version stages diff_vmi hash s) (set_hash stages diff_vmi hash) env
          (m env mid).1 last rest in
      (hashed s').holds env (advance_version stages diff_vmi hash s env (m env mid).1).1 last end
      ∙ (unadvanced s held_back).holds env (m env mid).1 s' advanced
      ∙ ((all_kept stages diff_vmi hash vmo statements (start c v)).holds env mid s performed).0
      ∙ initialised c.config now vmo ready

  -- In an unlocked sync that initialises the instance and returns, whatever Kubernetes and OpenSearch
  -- answer in it: where at its point of the run a stage reports an error, be it the migration, the role
  -- bindings, the config maps, the services, the claims, the stateful sets, the deployments, the
  -- ingresses, the write of the instance, the settings of the indices, the policies or the index
  -- patterns, or where the deployments changed, the sync does not change the version of the instance.
  pub version_waits :
      (now : String) (c : Controller) (vmo : Vmi) (env : List Call → Call → Reply)
      (tr mid : List Call) (secret : Result Reply) (v : Vmi) (last : State)
      → vmo.spec.lock ≡ false
      → attempt (ask (get_secret "verrazzano-system" "verrazzano-cluster-registration")) env tr
        ≡ (ok secret, mid)
      → initialize_vmo_spec (populate_cluster_info c secret).config now vmo ≡ ok v
      → Hindered stages diff_vmi hash vmo statements
          (start (populate_cluster_info c secret) v)
          env
          mid
      → (sync_handler_standard_mode stages diff_vmi hash now c vmo env tr).0 ≡ ok last
      → SameVersion vmo last.vmo
  unfolding sync_handler_standard_mode
  version_waits now c vmo env tr mid secret v last unlocked asked ready hindered e =
      let next : Bool → Result Reply → Client State = λ b r.
        if b
        then pure (start (populate_cluster_info c r) vmo)
        else sync_unlocked stages diff_vmi hash now vmo (populate_cluster_info c r) in
      let answered =
        subst
          (λ (p : Result (Result Reply) × List Call).
            (continue (next vmo.spec.lock) env p.0 p.1).0 ≡ ok last)
          asked e in
      unlocked_waits now (populate_cluster_info c secret) vmo v env mid last ready hindered
        (subst (λ (b : Bool). (next b secret env mid).0 ≡ ok last) unlocked answered)
