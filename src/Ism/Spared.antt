-- ===== src/Ism/Spared.antt =====
-- Which policies `cleanupPolicies` of pkg/opensearch/ism.go leaves alone.
use verrazzano_monitoring_op.Prelude.{
  ℕ, String, ◌≡◌, refl, sym, ◌≢◌, inl, inr, Bool, true, false, ◌&&◌, Option, none, some, List, [],
  ◌∷◌, Memᴰ, arith, eq_iff, ◌=ₜ◌, if◌then◌else◌, Bool-cases, any_of_mem,
}
use verrazzano_monitoring_op.Prelude.Io.{Result, ok, err, panic, lift, ◌>>=◌}
use text.Mathlib.TextLemmas.{append_cancel_left}
use verrazzano_monitoring_op.Prelude.Io.Cost.{AtMost, AtMost-pure, AtMost-lift, AtMost-bind_free}
use verrazzano_monitoring_op.Policy.{IsmPolicy, is_eligible_for_deletion}
use verrazzano_monitoring_op.Server.{Config, Client, Call, http}
use verrazzano_monitoring_op.Server.Costs.{AtMost-request, AtMost-request_json}
use verrazzano_monitoring_op.Vmi.{IndexManagementPolicy}
use verrazzano_monitoring_op.Ism.{
  policy_url, get_all_policies, delete_policy, delete_if_eligible, delete_eligible, policy_names,
  cleanup_policies,
}

-- a request that deletes the policy `name`
abbrev pub deletes_policy : String → String → Call → ℕ
deletes_policy endpoint name (http method url body) =
    if method =ₜ "DELETE" && url =ₜ policy_url endpoint name then 1 else 0
deletes_policy endpoint name c = 0

same_name : (endpoint a b : String) → policy_url endpoint a ≡ policy_url endpoint b → a ≡ b
same_name endpoint a b e =
    append_cancel_left "/_plugins/_ism/policies/" a b (append_cancel_left endpoint _ _ e)

other_url :
    (endpoint a b : String) → a ≢ b → (policy_url endpoint a =ₜ policy_url endpoint b) ≡ false
other_url endpoint a b h = elim (Bool-cases (policy_url endpoint a =ₜ policy_url endpoint b)) [
  | inl e ↦
      absurd
        (h (same_name endpoint a b ((eq_iff (policy_url endpoint a) (policy_url endpoint b)).0 e)))
  | inr e ↦ e
]

-- a policy that may be deleted is not one of the names
not_listed :
    (policy : IsmPolicy) (names : List String) (id name : String)
    → policy.id ≡ some id
    → is_eligible_for_deletion policy names ≡ ok true
    → Memᴰ name names
    → id ≢ name
unfolding is_eligible_for_deletion
not_listed policy names id name e h m same =
    let listed = any_of_mem names (λ n. n =ₜ id) m ((eq_iff name id).1 (sym same)) in ground (arith)

AtMost-delete :
    (config : Config) (endpoint name : String) (names : List String) (policy : IsmPolicy) (b : Bool)
    → Memᴰ name names
    → is_eligible_for_deletion policy names ≡ ok b
    → (id : Option String) → policy.id ≡ id
    → AtMost (deletes_policy endpoint name) 0 (delete_if_eligible config endpoint id b)
unfolding delete_if_eligible delete_policy
AtMost-delete config endpoint name names policy false m h id e = AtMost-pure 0 tt
AtMost-delete config endpoint name names policy true m h none e = AtMost-lift 0 panic
AtMost-delete config endpoint name names policy true m h (some id) e =
    AtMost-bind_free 0 _ _
      (AtMost-request config "DELETE" (policy_url endpoint id) "" _
        (rw (other_url endpoint id name (not_listed policy names id name e h m)) (omega arith)))
      (λ r. AtMost-pure 0 tt)

-- behind a test that may panic
AtMost-tested :
    {weight : Call → ℕ} (r : Result Bool) (f : Bool → Client (Unit {0}))
    → ((b : Bool) → r ≡ ok b → AtMost weight 0 (f b))
    → AtMost weight 0 (lift r >>= f)
AtMost-tested (ok b) f h = record { bound = (h b refl).bound }
AtMost-tested (err e) f h = record { bound = λ env tr. omega arith }
AtMost-tested panic f h = record { bound = λ env tr. omega arith }

AtMost-delete_eligible :
    (config : Config) (endpoint name : String) (names : List String) (policies : List IsmPolicy)
    → Memᴰ name names
    → AtMost (deletes_policy endpoint name) 0 (delete_eligible config endpoint names policies)
unfolding delete_eligible
AtMost-delete_eligible config endpoint name names [] m = AtMost-pure 0 tt
AtMost-delete_eligible config endpoint name names (policy ∷ policies) m =
    AtMost-tested (is_eligible_for_deletion policy names) _ (λ b h.
      AtMost-bind_free 0 _ _ (AtMost-delete config endpoint name names policy b m h policy.id refl)
        (λ u. AtMost-delete_eligible config endpoint name names policies m))

-- Whatever the server answers, the cleanup sends no request that deletes a policy which the instance
-- still has.
pub cleanup_spares_expected :
    (config : Config) (endpoint name : String) (policies : List IndexManagementPolicy)
    → Memᴰ name (policy_names policies)
    → AtMost (deletes_policy endpoint name) 0 (cleanup_policies config endpoint policies)
unfolding cleanup_policies get_all_policies
cleanup_spares_expected config endpoint name policies m =
    AtMost-bind_free 0 _ _
      (AtMost-bind_free 0 _ _ (AtMost-request_json config "GET" _ "" _ (omega arith))
        (λ reply. AtMost-pure 0 reply.policies))
      (λ all_policies. AtMost-delete_eligible config endpoint name _ all_policies m)
