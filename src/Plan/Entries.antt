-- ===== src/Plan/Entries.antt =====
-- What a plan holds: `CreatePlan` of pkg/resources/statefulsets/plan.go.
use verrazzano_monitoring_op.Prelude.{
  String, ◌≡◌, sym, ◌≢◌, ◌↔◌, inl, inr, none, List, [], Memᴰ, Option-cases, All,
}
use verrazzano_monitoring_op.Prelude.Io.{ok}
use verrazzano_monitoring_op.Prelude.{All-mem}
use verrazzano_monitoring_op.Prelude.Dict.{Dict, lookup}
use verrazzano_monitoring_op.Kube.{StatefulSet}
use verrazzano_monitoring_op.Plan.{StatefulSetPlan, create_plan, by_name}
use verrazzano_monitoring_op.Plan.Safety.{plan_inversion}
use verrazzano_monitoring_op.Plan.ByName.{present_names, named_entry, mem_of_lookup}
use verrazzano_monitoring_op.Plan.Members.{plan_of_create}

-- the loops over a map meet each entry, and nothing else
abbrev pub Walks : (Dict StatefulSet → Dict StatefulSet) → Type 0
Walks order = (d : Dict StatefulSet) (e : String × StatefulSet) → Memᴰ e (order d) ↔ Memᴰ e d

absent_lookup :
    (list : List StatefulSet) (n : String)
    → All (λ (s : StatefulSet). s.name ≢ n) list
    → lookup n (by_name [] list) ≡ none
absent_lookup list n absent = elim (Option-cases (lookup n (by_name [] list))) [
  | inl e ↦ e
  | inr (s, e) ↦
      let (q, u) = named_entry list (mem_of_lookup n _ e) in
      absurd (All-mem (λ (s : StatefulSet). s.name ≢ n) list absent u (sym q))
]

module _ (diff : StatefulSet → StatefulSet → String) (order : Dict StatefulSet → Dict StatefulSet)
    (walks : Walks order) (existing_list expected_list : List StatefulSet) {p : StatefulSetPlan}
    (planned : create_plan diff order existing_list expected_list ≡ ok p) where
  -- For each expected set whose name no existing set has, a set of that name is created, also when
  -- the plan has a conflict.
  pub plan_creates_missing :
      (x : StatefulSet)
      → Memᴰ x expected_list
      → All (λ old. old.name ≢ x.name) existing_list
      → (s : StatefulSet) × Memᴰ s p.create × (s.name ≡ x.name)
  plan_creates_missing x h absent =
      let (b, e, f) = plan_inversion diff order existing_list expected_list planned in
      let (y, found) = present_names x expected_list h in
      let t = mem_of_lookup x.name (by_name [] expected_list) found in
      let (q, u) = named_entry expected_list t in
      (
        y,
        rw f (
            plan_of_create diff order _ x.name y (absent_lookup existing_list x.name absent)
              ((walks _ _).1 t)),
        sym q,
      )
