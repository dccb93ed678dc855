-- ===== src/PvcUpdate/Version.antt =====
-- The version of the instance over `CreatePersistentVolumeClaims`.
use verrazzano_monitoring_op.Prelude.{
  if◌then◌else◌, ◌&&◌, ◌&&◌, ◌=ₜ◌, not, String, ◌≡◌, refl, inl, inr, Option, none, some, List, [],
  ◌∷◌, Bool-cases,
}
use verrazzano_monitoring_op.Prelude.Int.{ℤ}
use verrazzano_monitoring_op.Prelude.Io.{
  pure, lift, call, Error, Result, ok, err, panic, settle, attempt,
}
use verrazzano_monitoring_op.Prelude.Io.Ensures.{
  Ensures-any, Ensures, Ensures-pure, Ensures-crash, Ensures-bind, Ensures-then,
}
use verrazzano_monitoring_op.Kube.{Pvc, StorageClass}
use verrazzano_monitoring_op.Prelude.Dict.{insert}
use verrazzano_monitoring_op.Pvc.{new_ad_pvc_counter, inc}
use verrazzano_monitoring_op.StorageClasses.{StorageClassInfo}
use verrazzano_monitoring_op.Server.{Config, Client, Reply}
use verrazzano_monitoring_op.Vmi.{Vmi}
use verrazzano_monitoring_op.VmoStorage.{update_vmo_storage_for_pvc}
use verrazzano_monitoring_op.PvcUpdate.{
  get_pvc, update_pvc, create_pvc, ask, Progress, Round, next, return, PvcOutcome, replace_pvc,
  resize_pvc, note_zone, after_resize, expands, pvc_needs_resize, is_empty, new_pvc_name,
  is_open_search_pvc, is_data_resizable, determine_storage_class, choose_ad, cleanup_unused_pvcs,
  new_pvcs, get_schedulable_ads, parse_storage_class_info, set_per_node_storage, caught, caught_by,
  failed, apply_existing, apply_new, apply_found, apply_pvc, go_on, finish, apply_pvcs, with_ads,
  create_persistent_volume_claims,
}

abbrev SameVersion : Vmi → Vmi → Type 0
SameVersion v w = w.spec.current_version ≡ v.spec.current_version

abbrev RoundKeeps : Vmi → Round → Type 0
RoundKeeps v (next p) = SameVersion v p.vmo
RoundKeeps v (return o) = SameVersion v o.vmo

settled :
    {A : Type 0} (Q : A → Type 0) (r : Result A)
    → ((a : A) → r ≡ ok a → Q a)
    → (s : Result A) → settle r ≡ ok s
    → (a : A) → s ≡ ok a
    → Q a
settled Q (ok b) h s e a q = h a (cc)
settled Q (err x) h s e a q = absurd (cc)
settled Q panic h s e a q = absurd (cc)

module _ {A B : Type 0} {P : B → Type 0} where
  caught_cases :
      (handler : Error → B) (f : A → Client B) (r : Result A)
      → ((e : Error) → P (handler e))
      → ((a : A) → r ≡ ok a → Ensures P (f a))
      → Ensures P (caught_by handler f r)
  unfolding caught_by
  caught_cases handler f (ok a) h k = k a refl
  caught_cases handler f (err e) h k = Ensures-pure _ (h e)
  caught_cases handler f panic h k = Ensures-crash

  Ensures-caught :
      (Q : A → Type 0) (handler : Error → B) (m : Client A) (f : A → Client B)
      → Ensures Q m
      → ((e : Error) → P (handler e))
      → ((a : A) → Q a → Ensures P (f a))
      → Ensures P (caught handler m f)
  unfolding caught
  Ensures-caught Q handler m f hm h k =
      Ensures-bind (λ r. (a : A) → r ≡ ok a → Q a) (attempt m) (caught_by handler f)
        (record {
          holds = λ env tr s e a q. settled Q (m env tr).0 (λ a' q'. hm.holds env tr a' q') s e a q;
        })
        (λ r hr. caught_cases handler f r h (λ a q. k a (hr a q)))

kept :
    (v w : Vmi) (old new : String)
    → SameVersion v w
    → SameVersion v (update_vmo_storage_for_pvc w old new)
unfolding update_vmo_storage_for_pvc
kept v w old new h = h

module _ (config : Config) (v : Vmi) where
  Ensures-replaced :
      (w : Vmi) (existing expected : Pvc)
      → SameVersion v w
      → Ensures (λ r. SameVersion v (r.1)) (replace_pvc w existing expected)
  unfolding replace_pvc
  Ensures-replaced w existing expected h =
      Ensures-then (new_pvc_name expected.name 5) _ (λ new_name.
        Ensures-then
          (ask (
            create_pvc w.namespace
              (record expected { selector = existing.selector; name = new_name })))
          _
          (λ u.
            Ensures-pure (some new_name, update_vmo_storage_for_pvc w existing.name new_name)
              (kept v w existing.name new_name h)))

  Ensures-resized :
      (w : Vmi) (existing expected : Pvc) (storage_class : StorageClass)
      → SameVersion v w
      → Ensures (λ r. SameVersion v r.1) (resize_pvc config w existing expected storage_class)
  unfolding resize_pvc
  Ensures-resized w existing expected storage_class h = elim (Bool-cases (expands storage_class)) [
    | inl e ↦ rw e (
        Ensures-then (ask (update_pvc w.namespace (record existing { storage = expected.storage })))
          _ (λ u. Ensures-pure (none, w) h))
    | inr e ↦ rw e (
        Ensures-then (if is_open_search_pvc expected then is_data_resizable config w else pure tt) _
          (λ u. Ensures-replaced w existing expected h))
  ]

  noted :
      (info : StorageClassInfo) (existing : Pvc) (name : String) (p : Progress)
      → SameVersion v p.vmo
      → SameVersion v (note_zone info existing name p).vmo
  unfolding note_zone
  noted info existing name p h = elim (Bool-cases info.pvc_accepts_zone) [
    | inl e ↦ rw e h
    | inr e ↦ rw e h
  ]

  after :
      (info : StorageClassInfo) (existing : Pvc) (name : String) (p : Progress)
      (r : Option String × Vmi)
      → SameVersion v (r.1)
      → RoundKeeps v (after_resize info existing name p r)
  unfolding after_resize
  after info existing name p (none, w) h = noted info existing name (record p { vmo = w }) h
  after info existing name p (some new_name, w) h = h

  Ensures-existing :
      (info : StorageClassInfo) (p : Progress) (expected existing : Pvc)
      → SameVersion v p.vmo
      → Ensures (RoundKeeps v) (apply_existing config info p expected existing)
  unfolding apply_existing failed
  Ensures-existing info p expected existing h =
      elim (Bool-cases (pvc_needs_resize existing expected)) [
        | inl e ↦ rw e (
            Ensures-caught (λ r. SameVersion v r.1) (λ x. return (failed p.vmo none x)) _
              (λ r. pure (after_resize info existing expected.name p r))
              (Ensures-then (determine_storage_class config existing.storage_class_name) _
                (λ c. Ensures-resized p.vmo existing expected c h))
              (λ x. h)
              (λ r hr.
                Ensures-pure (after_resize info existing expected.name p r)
                  (after info existing expected.name p r hr)))
        | inr e ↦ rw e (
            Ensures-pure (next (note_zone info existing expected.name p))
              (noted info existing expected.name p h))
      ]

  -- what follows the creation of a claim
  next_of : StorageClassInfo → Progress → Pvc → String → Reply → Round
  next_of info p expected new_ad reply = next (record p {
    counter =
        if info.pvc_accepts_zone && is_open_search_pvc expected
        then inc p.counter new_ad
        else p.counter;
    pvc_to_ad = insert expected.name new_ad p.pvc_to_ad;
  })

  Ensures-new :
      (info : StorageClassInfo) (ads : List String) (p : Progress) (expected : Pvc)
      → SameVersion v p.vmo
      → Ensures (RoundKeeps v) (apply_new info ads p expected)
  unfolding apply_new failed next_of
  Ensures-new info ads p expected h = Ensures-then (choose_ad info ads p expected) _ (λ ad.
      let placed =
        if info.pvc_accepts_zone
        then record expected { selector = some ((info.pvc_zone_match_label, ad) ∷ []) }
        else expected in
      Ensures-caught (λ r. Unit) (λ e. return (failed p.vmo (some p.pvc_to_ad) e))
        (ask (create_pvc p.vmo.namespace placed)) (λ r. pure (next_of info p expected ad r))
        (Ensures-any _) (λ x. h) (λ r u. Ensures-pure (next_of info p expected ad r) h))

  Ensures-found :
      (info : StorageClassInfo) (ads : List String) (p : Progress) (expected : Pvc)
      (e : Option Error) (reply : Reply)
      → SameVersion v p.vmo
      → Ensures (RoundKeeps v) (apply_found config info ads p expected e reply)
  unfolding apply_found
  Ensures-found info ads p expected none reply h = Ensures-existing info p expected reply.pvc h
  Ensures-found info ads p expected (some e) reply h = Ensures-new info ads p expected h

  Ensures-round :
      (info : StorageClassInfo) (ads : List String) (p : Progress) (expected : Pvc)
      → SameVersion v p.vmo
      → Ensures (RoundKeeps v) (apply_pvc config info ads p expected)
  unfolding apply_pvc
  Ensures-round info ads p expected h = elim (Bool-cases (expected.name =ₜ "")) [
    | inl e ↦ rw e (
        Ensures-pure (return (record { pvc_to_ad = some p.pvc_to_ad; error = none; vmo = p.vmo }))
          h)
    | inr e ↦ rw e (
        Ensures-then (call (get_pvc p.vmo.namespace expected.name)) _
          (λ reply. Ensures-found info ads p expected reply.error reply h))
  ]

  goes_on :
      (rest : Progress → Client PvcOutcome)
      → ((p : Progress) → SameVersion v p.vmo → Ensures (λ o. SameVersion v o.vmo) (rest p))
      → (round : Round) → RoundKeeps v round
      → Ensures (λ o. SameVersion v o.vmo) (go_on rest round)
  unfolding go_on
  goes_on rest h (next p) k = h p k
  goes_on rest h (return o) k = Ensures-pure o k

  Ensures-applied :
      (info : StorageClassInfo) (ads : List String) (expected : List Pvc) (p : Progress)
      → SameVersion v p.vmo
      → Ensures (λ o. SameVersion v o.vmo) (apply_pvcs config info ads expected p)
  unfolding apply_pvcs finish failed
  Ensures-applied info ads [] p h =
      Ensures-caught (λ u. Unit) (failed p.vmo (some p.pvc_to_ad)) (cleanup_unused_pvcs p.vmo)
        (λ u. pure (record { pvc_to_ad = some p.pvc_to_ad; error = none; vmo = p.vmo }))
        (Ensures-any _) (λ x. h) (λ u w. Ensures-pure _ h)
  Ensures-applied info ads (pvc ∷ expected) p h =
      Ensures-bind (RoundKeeps v) _ (go_on (apply_pvcs config info ads expected))
        (Ensures-round info ads p pvc h)
        (λ round k.
          goes_on (apply_pvcs config info ads expected)
            (λ p' h'. Ensures-applied info ads expected p' h') round k)

  Ensures-placed :
      (info : StorageClassInfo) (w : Vmi) (expected : List Pvc) (ads : List String)
      → SameVersion v w
      → Ensures (λ o. SameVersion v o.vmo) (with_ads config info w expected ads)
  unfolding with_ads failed
  Ensures-placed info w expected ads h =
      elim (Bool-cases (not (is_empty expected) && info.name =ₜ "")) [
        | inl e ↦ rw e (
            Ensures-pure (failed w none "cannot create PVCs when the cluster has no storage class")
              h)
        | inr e ↦ rw e (
            Ensures-applied info ads expected
              (record { vmo = w; counter = new_ad_pvc_counter ads; pvc_to_ad = [] }) h)
      ]

pub claims_keep_version :
    (parse_quantity : String → Result ℤ) (config : Config) (v : Vmi)
    → Ensures (λ o. SameVersion v o.vmo) (create_persistent_volume_claims parse_quantity config v)
unfolding create_persistent_volume_claims failed
claims_keep_version parse_quantity config v =
    let vmo = record v {
      spec = record v.spec { opensearch = set_per_node_storage v.spec.opensearch };
    } in
    Ensures-caught (λ u. Unit) (failed vmo none)
      (determine_storage_class config vmo.spec.storage_class) _ (Ensures-any _) (λ x. refl)
      (λ storage_class u.
        Ensures-caught (λ u. Unit) (failed vmo none)
          (lift (new_pvcs parse_quantity vmo storage_class.name)) _ (Ensures-any _) (λ x. refl)
          (λ expected w.
            Ensures-caught (λ u. Unit) (failed vmo (some [])) get_schedulable_ads _ (Ensures-any _)
              (λ x. refl)
              (λ ads z.
                Ensures-placed config v (parse_storage_class_info config storage_class) vmo expected
                  ads refl)))
