-- ===== src/Plan/Decision.antt =====
-- The decision whether nodes may be removed: `createStatefulSetMapping` of
-- pkg/resources/statefulsets/plan.go.
use verrazzano_monitoring_op.Prelude.{
  ◌*◌, ◌<◌, ◌⊎◌, ◌≤◌, ◌≡◌, refl, inl, inr, Bool, true, false, List, [], ◌∷◌, arith, ◌=ₜ◌,
  if◌then◌else◌, Bool-cases,
}
use verrazzano_monitoring_op.Prelude.Int.{eqb_ℤ→eq, pos_part, ℤ, pos, eqb_ℤ}
use verrazzano_monitoring_op.Prelude.Io.{Result, ok, err, panic}
use verrazzano_monitoring_op.Kube.{StatefulSet}
use verrazzano_monitoring_op.Plan.{
  same_first, StatefulSetMapping, sum_sizes, is_single, keeps_majority, allow_scale_down, by_name,
}

-- the sizes that the mapping adds up
abbrev pub ready_size : List StatefulSet → ℤ
ready_size list = sum_sizes (λ sts. sts.ready_replicas) (pos 0) list

abbrev pub wanted_size : List StatefulSet → ℤ
wanted_size list = sum_sizes (λ sts. sts.replicas) (pos 0) list

-- the decision, when the index of the first sets is not out of range
unfoldable pub decided : (existing_list expected_list : List StatefulSet) → Result Bool
decided existing_list expected_list =
    allow_scale_down (ready_size existing_list) (wanted_size expected_list)
      (is_single (ready_size existing_list) existing_list expected_list)

pub decided_total :
    (existing_list expected_list : List StatefulSet)
    → (b : Bool) × (decided existing_list expected_list ≡ ok b)
unfolding decided allow_scale_down is_single sum_sizes
decided_total ys [] = (true, refl)
decided_total [] (x ∷ xs) = elim (Bool-cases (eqb_ℤ (wanted_size (x ∷ xs)) (pos 0))) [
  | inl e ↦ (true, rw e refl)
  | inr e ↦ (keeps_majority (ready_size []) (wanted_size (x ∷ xs)), rw e refl)
]
decided_total (y ∷ ys) (x ∷ xs) = elim (Bool-cases (eqb_ℤ (wanted_size (x ∷ xs)) (pos 0))) [
  | inl e ↦ (true, rw e refl)
  | inr e ↦ elim (Bool-cases (eqb_ℤ (ready_size (y ∷ ys)) (pos 1))) [
    | inl f ↦ (
      if x.name =ₜ y.name
          then true
          else keeps_majority (ready_size (y ∷ ys)) (wanted_size (x ∷ xs)),
      rw (e, f) refl,
    )
    | inr f ↦ (keeps_majority (ready_size (y ∷ ys)) (wanted_size (x ∷ xs)), rw (e, f) refl)
  ]
]

abbrev pub mapping_with : List StatefulSet → List StatefulSet → Bool → StatefulSetMapping
mapping_with existing_list expected_list allowed = record {
  existing = by_name [] existing_list;
  expected = by_name [] expected_list;
  is_scale_down_allowed = allowed;
  existing_size = ready_size existing_list;
  expected_size = wanted_size expected_list;
}

-- what makes it safe to restart or remove nodes of a running cluster: no nodes are wanted at all,
-- there is one node and it stays, or more than half of the nodes that are ready are kept and there
-- are at least three
abbrev pub Keeps : List StatefulSet → List StatefulSet → Type 0
Keeps existing_list expected_list =
    (wanted_size expected_list ≡ pos 0)
    ⊎ ((ready_size existing_list ≡ pos 1) × (same_first expected_list existing_list ≡ ok true))
    ⊎ ((3 ≤ pos_part (wanted_size expected_list))
        × (pos_part (ready_size existing_list) < 2 * pos_part (wanted_size expected_list)))

majority : (e x : ℤ) → keeps_majority e x ≡ true → (3 ≤ pos_part x) × (pos_part e < 2 * pos_part x)
unfolding keeps_majority
majority e x h = ground arith

decided_by_first :
    (e x : ℤ) (first : Result Bool)
    → allow_scale_down e x first ≡ ok true
    → (x ≡ pos 0) ⊎ (first ≡ ok true) ⊎ (keeps_majority e x ≡ true)
unfolding allow_scale_down
decided_by_first e x (ok true) h = inr (inl refl)
decided_by_first e x (ok false) h = ground (arith, eqb_ℤ→eq x (pos 0))
decided_by_first e x (err t) h = ground (arith, eqb_ℤ→eq x (pos 0))
decided_by_first e x panic h = ground (arith, eqb_ℤ→eq x (pos 0))

is_single_lem :
    (e : ℤ) (ys xs : List StatefulSet)
    → is_single e ys xs ≡ ok true
    → (e ≡ pos 1) × (same_first xs ys ≡ ok true)
unfolding is_single
is_single_lem e ys xs h = ground (arith, eqb_ℤ→eq e (pos 1))

pub decided-Keeps :
    (existing_list expected_list : List StatefulSet)
    → decided existing_list expected_list ≡ ok true
    → Keeps existing_list expected_list
unfolding decided
decided-Keeps ys xs h =
    elim (decided_by_first (ready_size ys) (wanted_size xs) (is_single (ready_size ys) ys xs) h) [
      | inl none_wanted ↦ inl none_wanted
      | inr (inl single) ↦ inr (inl (is_single_lem (ready_size ys) ys xs single))
      | inr (inr more) ↦ inr (inr (majority (ready_size ys) (wanted_size xs) more))
    ]
