-- ===== src/Plan/ByName.antt =====
-- The maps from names to sets that `createStatefulSetMapping` of
-- pkg/resources/statefulsets/plan.go builds.
use verrazzano_monitoring_op.Prelude.{
  ◌∙◌, sym, ◌≢◌, All-mem, String, ◌≡◌, refl, ap, ◌⊎◌, inl, inr, none, some, List, [], ◌∷◌, Memᴰ,
  arith, eq_iff, ◌=ₜ◌, Bool-cases, Option-cases, All,
}
use mathlib.Core.List.Memᴰ
use verrazzano_monitoring_op.Prelude.Dict.{lookup-insert, Dict, lookup, insert}
use verrazzano_monitoring_op.Kube.{StatefulSet}
use verrazzano_monitoring_op.Plan.{by_name}

mem_insert :
    (k : String) (v : StatefulSet) (m : Dict StatefulSet) {e : String × StatefulSet}
    → Memᴰ e (insert k v m)
    → (e ≡ (k, v)) ⊎ Memᴰ e m
unfolding insert
mem_insert k v [] (Memᴰ.head h) = inl h
mem_insert k v [] (Memᴰ.tail t) = elim t [ ]
mem_insert k v ((j, w) ∷ m) h = elim (Bool-cases (j =ₜ k)) [
  | inl e ↦ elim (Memᴰ.cases_cons (rw e at h)) [ inl q ↦ inl q | inr t ↦ inr (Memᴰ.tail t) ]
  | inr e ↦ elim (Memᴰ.cases_cons (rw e at h)) [
    | inl q ↦ inr (Memᴰ.head q)
    | inr t ↦ elim (mem_insert k v m t) [ inl q ↦ inl q | inr u ↦ inr (Memᴰ.tail u) ]
  ]
]

by_name_entries :
    (m : Dict StatefulSet) (list : List StatefulSet) {e : String × StatefulSet}
    → Memᴰ e (by_name m list)
    → Memᴰ e m ⊎ ((e.0 ≡ e.1.name) × Memᴰ e.1 list)
unfolding by_name
by_name_entries m [] h = inl h
by_name_entries m (s ∷ list) h = elim (by_name_entries (insert s.name s m) list h) [
  | inl old ↦ elim (mem_insert s.name s m old) [
    | inl q ↦ inr (rw q refl, Memᴰ.head (ap (λ (p : String × StatefulSet). p.1) q))
    | inr t ↦ inl t
  ]
  | inr (q, t) ↦ inr (q, Memᴰ.tail t)
]

pub mem_of_lookup :
    (k : String) (m : Dict StatefulSet) {v : StatefulSet} → lookup k m ≡ some v → Memᴰ (k, v) m
unfolding lookup
mem_of_lookup k [] h = cc
mem_of_lookup k ((j, w) ∷ m) h = elim (Bool-cases (j =ₜ k)) [
  | inl e ↦ Memᴰ.head (ground (arith, eq_iff j k))
  | inr e ↦ Memᴰ.tail (mem_of_lookup k m (rw e at h))
]

pub absent_names :
    (n : String) (m : Dict StatefulSet) (list : List StatefulSet)
    → lookup n (by_name m list) ≡ none
    → (lookup n m ≡ none) × All (λ (s : StatefulSet). s.name ≢ n) list
unfolding by_name
absent_names n m [] h = (h, tt)
absent_names n m (s ∷ list) h =
    let (e, rest) = absent_names n (insert s.name s m) list h in
    let e' = sym (lookup-insert s.name n s m) ∙ e in
    (ground (arith, eq_iff s.name n), (ground (arith, eq_iff s.name n), rest))

pub present_names :
    (x : StatefulSet) (list : List StatefulSet)
    → Memᴰ x list
    → (y : StatefulSet) × (lookup x.name (by_name [] list) ≡ some y)
present_names x list h = elim (Option-cases (lookup x.name (by_name [] list))) [
  | inl e ↦
      absurd (
        All-mem (λ (s : StatefulSet). s.name ≢ x.name) list (absent_names x.name [] list e).1 h
          refl)
  | inr (y, e) ↦ (y, e)
]

pub named_entry :
    (list : List StatefulSet) {n : String} {s : StatefulSet}
    → Memᴰ (n, s) (by_name [] list)
    → (n ≡ s.name) × Memᴰ s list
named_entry list h = elim (by_name_entries [] list h) [
  | inl none_there ↦ elim none_there [ ]
  | inr q ↦ q
]
