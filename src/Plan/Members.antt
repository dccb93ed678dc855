-- ===== src/Plan/Members.antt =====
-- Lemmas on where the entries of a plan come from: `CreatePlan` of pkg/resources/statefulsets/plan.go.
use verrazzano_monitoring_op.Prelude.{
  All-append, String, ◌≡◌, refl, ap, inl, inr, Bool, true, false, not, ◌&&◌, Option, none, some, [],
  ◌∷◌, Memᴰ, arith, if◌then◌else◌, Bool-cases, Option-cases, All,
}
use mathlib.Core.List.Memᴰ
use verrazzano_monitoring_op.Prelude.Dict.{Dict, lookup, has_key}
use verrazzano_monitoring_op.Kube.{StatefulSet}
use verrazzano_monitoring_op.Plan.Safety.{existings_lem}
use verrazzano_monitoring_op.Plan.{
  StatefulSetPlan, StatefulSetMapping, copy_from_existing, plan_expected, plan_expecteds,
  plan_existing, plan_existings, add_conflict, empty_plan, plan_of,
}

-- where an entry of the plan comes from
module _ (diff : StatefulSet → StatefulSet → String) (order : Dict StatefulSet → Dict StatefulSet)
    (m : StatefulSetMapping) where
  unfoldable pub Created : StatefulSet → Type 0
  Created s = (n : String) × Memᴰ (n, s) m.expected × (lookup n m.existing ≡ none)

  unfoldable pub Updated : StatefulSet → Type 0
  Updated s =
      (n : String) × (x old : StatefulSet) × Memᴰ (n, x) m.expected
      × (lookup n m.existing ≡ some old)
      × (s ≡ copy_from_existing x old)

  unfoldable pub Deleted : StatefulSet → Type 0
  Deleted s = (n : String) × Memᴰ (n, s) m.existing × (lookup n m.expected ≡ none)

  pub record Grounded (p : StatefulSetPlan) : Type 0 where
    pub created : All Created p.create
    pub updated : All Updated p.update
    pub deleted : All Deleted p.delete

  Grounded-if :
      (b : Bool) (p q : StatefulSetPlan) → Grounded p → Grounded q → Grounded (if b then p else q)
  Grounded-if true p q gp gq = gp
  Grounded-if false p q gp gq = gq

  expected-Grounded :
      (n : String) (x : StatefulSet) (old : Option StatefulSet) (p : StatefulSetPlan)
      → Memᴰ (n, x) m.expected
      → lookup n m.existing ≡ old
      → Grounded p
      → Grounded (plan_expected diff order m.is_scale_down_allowed x old p)
  unfolding plan_expected Created Updated
  expected-Grounded n x none p h e g = record {
    created = All-append Created p.create _ g.created ((n, h, e), tt);
    updated = g.updated;
    deleted = g.deleted;
  }
  expected-Grounded n x (some old) p h e g =
      Grounded-if _ _ p
        (Grounded-if _ _ p
          (record {
            created = g.created;
            updated = All-append Updated p.update _ g.updated ((n, x, old, h, e, refl), tt);
            deleted = g.deleted;
          })
          g)
        g

  expecteds-Grounded :
      (sets : Dict StatefulSet) (p : StatefulSetPlan)
      → ((e : String × StatefulSet) → Memᴰ e sets → Memᴰ e m.expected)
      → Grounded p
      → Grounded (plan_expecteds diff order m sets p)
  unfolding plan_expecteds
  expecteds-Grounded [] p h g = g
  expecteds-Grounded ((n, x) ∷ rest) p h g =
      expecteds-Grounded rest
        (plan_expected diff order m.is_scale_down_allowed x (lookup n m.existing) p)
        (λ e t. h e (Memᴰ.tail t))
        (expected-Grounded n x (lookup n m.existing) p (h (n, x) (Memᴰ.head refl)) refl g)

  absent_lem :
      (n : String) (d : Dict StatefulSet) (b : Bool)
      → (not (has_key n d) && b) ≡ true
      → lookup n d ≡ none
  unfolding has_key
  absent_lem n d b h = elim (Option-cases (lookup n d)) [
    | inl e ↦ e
    | inr (s, e) ↦ absurd (ground arith)
  ]

  existing-Grounded :
      (n : String) (x : StatefulSet) (p : StatefulSetPlan)
      → Memᴰ (n, x) m.existing
      → Grounded p
      → Grounded (plan_existing diff order m n x p)
  unfolding plan_existing Deleted
  existing-Grounded n x p h g =
      elim (Bool-cases (not (has_key n m.expected) && m.is_scale_down_allowed)) [
        | inl t ↦
            rw (t, plan_existing)
              (record {
                created = g.created;
                updated = g.updated;
                deleted =
                    All-append Deleted p.delete _ g.deleted
                      ((n, h, absent_lem n m.expected _ t), tt);
              })
        | inr f ↦ rw (f, plan_existing) g
      ]

  existings-Grounded :
      (sets : Dict StatefulSet) (p : StatefulSetPlan)
      → ((e : String × StatefulSet) → Memᴰ e sets → Memᴰ e m.existing)
      → Grounded p
      → Grounded (plan_existings diff order m sets p)
  unfolding plan_existings
  existings-Grounded [] p h g = g
  existings-Grounded ((n, x) ∷ rest) p h g =
      existings-Grounded rest (plan_existing diff order m n x p) (λ e t. h e (Memᴰ.tail t))
        (existing-Grounded n x p (h (n, x) (Memᴰ.head refl)) g)

  pub plan_of-Grounded :
      ((d : Dict StatefulSet) (e : String × StatefulSet) → Memᴰ e (order d) → Memᴰ e d)
      → Grounded (plan_of diff order m)
  unfolding plan_of empty_plan add_conflict
  plan_of-Grounded h =
      let p0 = empty_plan diff order m in
      let g0 : Grounded p0 = record { created = tt; updated = tt; deleted = tt } in
      let g1 = expecteds-Grounded (order m.expected) p0 (h m.expected) g0 in
      let p1 = plan_expecteds diff order m (order m.expected) p0 in
      let g2 = existings-Grounded (order m.existing) p1 (h m.existing) g1 in
      Grounded-if _ _ _
        (record { created = g2.created; updated = g2.updated; deleted = g2.deleted }) g2

  expected_creates :
      (n : String) (x : StatefulSet) (p : StatefulSetPlan)
      → lookup n m.existing ≡ none
      → Memᴰ x (plan_expected diff order m.is_scale_down_allowed x (lookup n m.existing) p).create
  unfolding plan_expected
  expected_creates n x p e = rw e (Memᴰ.append_right p.create (Memᴰ.head refl))

  keep_if :
      (b : Bool) (p q : StatefulSetPlan) {s : StatefulSet}
      → Memᴰ s p.create
      → Memᴰ s q.create
      → Memᴰ s (if b then p else q).create
  keep_if true p q h k = h
  keep_if false p q h k = k

  expected_keeps_created :
      (allowed : Bool) (x : StatefulSet) (old : Option StatefulSet) (p : StatefulSetPlan)
      {s : StatefulSet}
      → Memᴰ s p.create
      → Memᴰ s (plan_expected diff order allowed x old p).create
  unfolding plan_expected
  expected_keeps_created allowed x none p h = Memᴰ.append_left _ h
  expected_keeps_created allowed x (some old) p h = keep_if _ _ _ (keep_if _ _ _ h h) h

  expecteds_keep_created :
      (sets : Dict StatefulSet) (p : StatefulSetPlan) {s : StatefulSet}
      → Memᴰ s p.create
      → Memᴰ s (plan_expecteds diff order m sets p).create
  unfolding plan_expecteds
  expecteds_keep_created [] p h = h
  expecteds_keep_created ((n, x) ∷ rest) p h =
      expecteds_keep_created rest
        (plan_expected diff order m.is_scale_down_allowed x (lookup n m.existing) p)
        (expected_keeps_created m.is_scale_down_allowed x (lookup n m.existing) p h)

  expecteds_create :
      (n : String) (x : StatefulSet) (sets : Dict StatefulSet) (p : StatefulSetPlan)
      → lookup n m.existing ≡ none
      → Memᴰ (n, x) sets
      → Memᴰ x (plan_expecteds diff order m sets p).create
  unfolding plan_expecteds
  expecteds_create n x [] p e h = elim h [ ]
  expecteds_create n x ((j, y) ∷ rest) p e (Memᴰ.head q) =
      let q0 = ap (λ (t : String × StatefulSet). t.0) q in
      let q1 = ap (λ (t : String × StatefulSet). t.1) q in
      expecteds_keep_created rest
        (plan_expected diff order m.is_scale_down_allowed y (lookup j m.existing) p)
        (rw (q1, ← q0) (expected_creates n y p e))
  expecteds_create n x ((j, y) ∷ rest) p e (Memᴰ.tail t) =
      expecteds_create n x rest
        (plan_expected diff order m.is_scale_down_allowed y (lookup j m.existing) p) e t

  pub plan_of_create :
      (n : String) (x : StatefulSet)
      → lookup n m.existing ≡ none
      → Memᴰ (n, x) (order m.expected)
      → Memᴰ x (plan_of diff order m).create
  unfolding plan_of empty_plan add_conflict
  plan_of_create n x e h =
      let p0 = empty_plan diff order m in
      let p1 = plan_expecteds diff order m (order m.expected) p0 in
      let c = existings_lem diff order m (order m.existing) p1 in
      let there : Memᴰ x (plan_existings diff order m (order m.existing) p1).create =
        rw c.1 (expecteds_create n x (order m.expected) p0 e h) in
      keep_if _ _ _ there there
