-- ===== src/Reconcilers/RoleLabels.antt =====
-- The role labels: what `SetNodeRoleLabels` of pkg/resources/nodes/nodes.go writes, and what
-- `UseNodeRoleSelector` of pkg/resources/services/elasticsearch.go reads.
use verrazzano_monitoring_op.Prelude.{
  true, false, Bool, ap, sym, all, ◌≡◌, refl, ◌||◌, List, [], ◌∷◌, arith, eq_iff, ◌=ₜ◌, any,
}
use text.Mathlib.TextLemmas.{append_cancel_left}
use verrazzano_monitoring_op.Kube.{Labels}
use verrazzano_monitoring_op.Prelude.Dict.{insert, has_key, lookup-insert}
use verrazzano_monitoring_op.Vmi.{NodeRole}
use verrazzano_monitoring_op.Reconcilers.{
  master_role, ingest_role, data_role, has_role_label, use_node_role_selector, get_role_label,
  set_node_role_labels,
}

bool_ext : (a b : Bool) → (a ≡ true → b ≡ true) → (b ≡ true → a ≡ true) → a ≡ b
bool_ext true b f g = sym (f refl)
bool_ext false true f g = g refl
bool_ext false false f g = refl

same_label : (r s : NodeRole) → (get_role_label r =ₜ get_role_label s) ≡ (r =ₜ s)
unfolding get_role_label
same_label r s =
    bool_ext _ _
      (λ d. (eq_iff r s).1 (
        append_cancel_left "opensearch.verrazzano.io/role-" r s
          ((eq_iff (get_role_label r) (get_role_label s)).0 d)))
      (λ e. (eq_iff (get_role_label r) (get_role_label s)).1 (ap get_role_label ((eq_iff r s).0 e)))

-- a label is there where the role was set, or the label was there before
label_set :
    (role : NodeRole) (roles : List NodeRole) (labels : Labels)
    → has_key (get_role_label role) (set_node_role_labels roles labels)
      ≡ (any roles (λ r. r =ₜ role) || has_key (get_role_label role) labels)
unfolding set_node_role_labels any has_key
label_set role [] labels = refl
label_set role (r ∷ roles) labels = ground (
  arith,
  label_set role roles (insert (get_role_label r) "true" labels),
  lookup-insert (get_role_label r) (get_role_label role) "true" labels,
  same_label r role,
)

-- the group has one of the three roles
unfoldable pub has_known_role : List NodeRole → Bool
unfolding any
has_known_role roles =
    any roles (λ r. r =ₜ data_role)
    || any roles (λ r. r =ₜ ingest_role)
    || any roles (λ r. r =ₜ master_role)

-- the labels of the pods of groups with these roles
unfoldable pub labelled : Labels → List (List NodeRole) → List Labels
labelled labels [] = []
labelled labels (roles ∷ groups) = set_node_role_labels roles labels ∷ labelled labels groups

has_label :
    (roles : List NodeRole) (labels : Labels)
    → has_role_label labels ≡ false
    → has_role_label (set_node_role_labels roles labels) ≡ has_known_role roles
unfolding has_role_label has_known_role
has_label roles labels h = ground (
  arith,
  label_set data_role roles labels,
  label_set ingest_role roles labels,
  label_set master_role roles labels,
)

-- What `SetNodeRoleLabels` adds to the labels of pods is read back by `UseNodeRoleSelector`: it
-- accepts the pods exactly when every group has a data, an ingest or a master role, if none of these
-- labels was there before.
pub role_labels_read_back :
    (labels : Labels) (groups : List (List NodeRole))
    → has_role_label labels ≡ false
    → use_node_role_selector (labelled labels groups) ≡ all groups has_known_role
unfolding use_node_role_selector labelled all
role_labels_read_back labels [] h = refl
role_labels_read_back labels (roles ∷ groups) h =
    rw (has_label roles labels h, role_labels_read_back labels groups h) refl
