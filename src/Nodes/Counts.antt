-- ===== src/Nodes/Counts.antt =====
-- What `GetNodeCount` and `IsSingleNodeCluster` say of the node groups.
use verrazzano_monitoring_op.Prelude.{
  sym, &&_true, ||_false, ℕ, ◌+◌, ◌≤◌, ◌<◌, ◌≡◌, refl, ap, ◌∙◌, ◌⊎◌, Bool, true, false, not, ◌&&◌,
  List, [], ◌∷◌, Memᴰ, arith, ◌=ₜ◌, any, All, Bool-cases, inl, inr,
}
use verrazzano_monitoring_op.Prelude.Int.{
  eqb_ℤ→eq, ℤ, pos, negsuc, add32, add32-pos, ◌≤ℤ◌, pos_part, eqb_ℤ,
}
use verrazzano_monitoring_op.Vmi.{Vmi, ElasticsearchNode, NodeRole, data_role, ingest_role}
use verrazzano_monitoring_op.Nodes.{
  NodeCount, no_nodes, all_nodes, count_role, count_roles, count_node, count_nodes, get_node_count,
  is_single_node_cluster,
}

-- a role that `GetNodeCount` counts as a master role: the `default` of its switch
abbrev pub counts_as_master : NodeRole → Bool
counts_as_master role = not (role =ₜ ingest_role) && not (role =ₜ data_role)

none_left : (r : ℤ) → pos 0 ≤ℤ r → pos_part r ≡ 0 → r ≡ pos 0
none_left r h e = ground arith

zero_or_one : (r : ℤ) → pos 0 ≤ℤ r → pos_part r ≤ 1 → (r ≡ pos 0) ⊎ (r ≡ pos 1)
zero_or_one r h e = ground arith

abbrev pub HasReplicas : ElasticsearchNode → Type 0
HasReplicas node = pos 0 ≤ℤ node.replicas

-- all replicas, counted without bound
abbrev pub total : List ElasticsearchNode → ℕ
total [] = 0
total (node ∷ nodes) = pos_part node.replicas + total nodes

count_roles-replicas :
    (r : ℤ) (c : NodeCount) (roles : List NodeRole) → (count_roles r c roles).replicas ≡ c.replicas
unfolding count_roles
count_roles-replicas r c [] = refl
count_roles-replicas r c (role ∷ roles) =
    count_roles-replicas r (count_role r c role) roles ∙ (unfold count_role in ground arith)

count_node-replicas :
    (c : NodeCount) (node : ElasticsearchNode)
    → (count_node c node).replicas ≡ add32 c.replicas node.replicas
unfolding count_node
count_node-replicas c node = count_roles-replicas node.replicas _ node.roles

-- As long as the sum fits an `int32`, `Replicas` is the number of all replicas.
count_nodes-replicas :
    (c : NodeCount) (nodes : List ElasticsearchNode) (k : ℕ)
    → c.replicas ≡ pos k
    → All HasReplicas nodes
    → k + total nodes < 2147483648
    → (count_nodes c nodes).replicas ≡ pos (k + total nodes)
unfolding count_nodes
count_nodes-replicas c [] k e h b = ground arith
count_nodes-replicas c (node ∷ nodes) k e (h, hs) b =
    count_nodes-replicas (count_node c node) nodes (k + pos_part node.replicas)
      (count_node-replicas c node ∙ exact node.replicas h e (omega arith)) hs (omega arith)
    ∙ ap pos (omega arith)
  where
    exact :
        (r : ℤ)
        → pos 0 ≤ℤ r
        → c.replicas ≡ pos k
        → k + pos_part r < 2147483648
        → add32 c.replicas r ≡ pos (k + pos_part r)
    exact (pos n) h' e' b' = rw e' (add32-pos k n b')
    exact (negsuc n) h' e' b' = absurd (omega arith)

module _ (c : NodeCount) where
  count_role_zero :
      (role : NodeRole) → c.master_nodes ≡ pos 0 → (count_role (pos 0) c role).master_nodes ≡ pos 0
  unfolding count_role
  count_role_zero role e = ground (arith, add32-pos 0 0)

  count_role_other :
      (r : ℤ) (role : NodeRole)
      → counts_as_master role ≡ false
      → (count_role r c role).master_nodes ≡ c.master_nodes
  unfolding count_role
  count_role_other r role h = ground arith

count_roles_zero :
    (c : NodeCount) (roles : List NodeRole)
    → c.master_nodes ≡ pos 0
    → (count_roles (pos 0) c roles).master_nodes ≡ pos 0
unfolding count_roles
count_roles_zero c [] e = e
count_roles_zero c (role ∷ roles) e =
    count_roles_zero (count_role (pos 0) c role) roles (count_role_zero c role e)

count_roles_other :
    (r : ℤ) (c : NodeCount) (roles : List NodeRole)
    → any roles counts_as_master ≡ false
    → (count_roles r c roles).master_nodes ≡ c.master_nodes
unfolding count_roles any
count_roles_other r c [] e = refl
count_roles_other r c (role ∷ roles) e =
    let (h, hs) = ||_false (counts_as_master role) _ e in
    count_roles_other r (count_role r c role) roles hs ∙ count_role_other c r role h

idle_node :
    (c : NodeCount) (node : ElasticsearchNode)
    → node.replicas ≡ pos 0
    → c.master_nodes ≡ pos 0
    → (count_node c node).master_nodes ≡ pos 0
unfolding count_node
idle_node c node z e = rw z (count_roles_zero _ node.roles e)

no_master_node :
    (c : NodeCount) (node : ElasticsearchNode)
    → any node.roles counts_as_master ≡ false
    → c.master_nodes ≡ pos 0
    → (count_node c node).master_nodes ≡ pos 0
unfolding count_node
no_master_node c node a e = count_roles_other node.replicas _ node.roles a ∙ e

idle_nodes :
    (c : NodeCount) (nodes : List ElasticsearchNode)
    → c.master_nodes ≡ pos 0
    → All HasReplicas nodes
    → total nodes ≡ 0
    → (count_nodes c nodes).master_nodes ≡ pos 0
unfolding count_nodes
idle_nodes c [] e h t = e
idle_nodes c (node ∷ nodes) e (h, hs) t =
    idle_nodes (count_node c node) nodes
      (idle_node c node (none_left node.replicas h (omega arith)) e) hs (omega arith)

-- the node group that makes the master count 1 in a cluster of one replica
abbrev pub SingleMaster : List ElasticsearchNode → Type 0
SingleMaster nodes =
    (node : ElasticsearchNode) × Memᴰ node nodes
    × (node.replicas ≡ pos 1)
    × (any node.roles counts_as_master ≡ true)

single_master :
    (c : NodeCount) (nodes : List ElasticsearchNode)
    → c.master_nodes ≡ pos 0
    → All HasReplicas nodes
    → total nodes ≡ 1
    → (count_nodes c nodes).master_nodes ≡ pos 1
    → SingleMaster nodes
unfolding count_nodes
single_master c [] e h t m = absurd (omega arith)
single_master c (node ∷ nodes) e (h, hs) t m = elim (zero_or_one node.replicas h (omega arith)) [
  | inl z ↦ later (
      single_master (count_node c node) nodes (idle_node c node z e) hs
        (omega (arith, ap pos_part z)) m)
  | inr o ↦ elim (Bool-cases (any node.roles counts_as_master)) [
    | inl a ↦ (node, Memᴰ.head refl, o, a)
    | inr a ↦ cc (
      m,
      idle_nodes (count_node c node) nodes (no_master_node c node a e) hs
          (omega (arith, ap pos_part o)),
    )
  ]
]
  where
    later : SingleMaster nodes → SingleMaster (node ∷ nodes)
    later (n, i, r, a) = (n, Memᴰ.tail i, r, a)

-- A cluster that `IsSingleNodeCluster` accepts has a single replica in all (if no count of
-- replicas is negative and their sum fits an `int32`), and that replica is of a node group that
-- has a role other than ingest and data.
pub is_single_node_cluster_lem :
    (vmo : Vmi)
    → All HasReplicas (all_nodes vmo)
    → total (all_nodes vmo) < 2147483648
    → is_single_node_cluster vmo ≡ true
    → (total (all_nodes vmo) ≡ 1) × SingleMaster (all_nodes vmo)
unfolding is_single_node_cluster get_node_count
is_single_node_cluster_lem vmo h b s = (one, single_master no_nodes _ refl h one masters)
  where
    both :
        (eqb_ℤ (get_node_count vmo).master_nodes (pos 1) ≡ true)
        × (eqb_ℤ (get_node_count vmo).replicas (pos 1) ≡ true)
    both = &&_true _ _ s

    masters : (count_nodes no_nodes (all_nodes vmo)).master_nodes ≡ pos 1
    masters = eqb_ℤ→eq _ _ both.0

    one : total (all_nodes vmo) ≡ 1
    one = omega (
      arith,
      ap pos_part {y = pos 1} (
          sym (count_nodes-replicas no_nodes (all_nodes vmo) 0 refl h (omega arith))
          ∙ eqb_ℤ→eq _ _ both.1),
    )
