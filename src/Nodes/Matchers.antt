-- ===== src/Nodes/Matchers.antt =====
-- Which node groups each matcher selects.
use verrazzano_monitoring_op.Prelude.{
  ℕ, ◌+◌, ◌≡◌, refl, Bool, true, false, not, ◌||◌, ◌&&◌, List, [], ◌∷◌, arith, ◌=ₜ◌, any,
  if◌then◌else◌,
}
use verrazzano_monitoring_op.Vmi.{ElasticsearchNode, NodeRole, master_role, data_role, ingest_role}
use verrazzano_monitoring_op.Nodes.{
  match_roles, matcher_factory, master_node_matcher, data_node_matcher, ingest_node_matcher,
}

-- The early return makes no difference: what counts is which roles occur.
match_roles-any :
    (excluded matched : NodeRole → Bool) (roles : List NodeRole) (b : Bool)
    → match_roles excluded matched roles b ≡ (not (any roles excluded) && (b || any roles matched))
unfolding match_roles any
match_roles-any excluded matched [] b = ground arith
match_roles-any excluded matched (role ∷ roles) b =
    ground (arith, match_roles-any excluded matched roles (if matched role then true else b))

abbrev pub has_role : ElasticsearchNode → NodeRole → Bool
has_role node r = any node.roles (λ role. role =ₜ r)

any-or :
    (p q : NodeRole → Bool) (roles : List NodeRole)
    → any roles (λ r. p r || q r) ≡ (any roles p || any roles q)
unfolding any
any-or p q [] = refl
any-or p q (r ∷ rs) = ground (arith, any-or p q rs)

any_none : (roles : List NodeRole) → any roles (λ r. false) ≡ false
unfolding any
any_none [] = refl
any_none (r ∷ rs) = any_none rs

-- The node groups with a master role, those with a data role and no master role, and those with
-- an ingest role and neither of the others are what the three matchers select.
pub matchers_by_roles :
    (node : ElasticsearchNode)
    → (master_node_matcher node ≡ has_role node master_role)
      × (data_node_matcher node ≡ (not (has_role node master_role) && has_role node data_role))
      × (ingest_node_matcher node ≡ (
          not (has_role node master_role || has_role node data_role) && has_role node ingest_role))
unfolding master_node_matcher data_node_matcher ingest_node_matcher matcher_factory
matchers_by_roles node = (
  rw (match_roles-any (λ r. false) _ node.roles false, any_none node.roles) refl,
  match_roles-any _ _ node.roles false,
  rw
      (
        match_roles-any (λ r. r =ₜ master_role || r =ₜ data_role) _ node.roles false,
        any-or (λ r. r =ₜ master_role) (λ r. r =ₜ data_role) node.roles,
      )
      refl,
)

abbrev pub bit : Bool → ℕ
bit true = 1
bit false = 0

abbrev pub is_known_role : NodeRole → Bool
is_known_role role = role =ₜ master_role || (role =ₜ data_role || role =ₜ ingest_role)

-- Exactly one of the three matchers selects a node group that has a role of the three, and none
-- selects a group without such a role.
pub matchers_partition :
    (node : ElasticsearchNode)
    → bit (master_node_matcher node) + bit (data_node_matcher node) + bit (ingest_node_matcher node)
      ≡ bit (any node.roles is_known_role)
matchers_partition node =
    let (m, d, i) = matchers_by_roles node in
    rw
      (
        m,
        d,
        i,
        any-or (λ r. r =ₜ master_role) (λ r. r =ₜ data_role || r =ₜ ingest_role) node.roles,
        any-or (λ r. r =ₜ data_role) (λ r. r =ₜ ingest_role) node.roles,
      )
      (cases (has_role node master_role) (has_role node data_role) (has_role node ingest_role))
  where
    cases :
        (a b c : Bool) → bit a + bit (not a && b) + bit (not (a || b) && c) ≡ bit (a || (b || c))
    cases a b c = ground arith
