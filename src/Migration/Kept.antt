-- ===== src/Migration/Kept.antt =====
-- Which indices the migration of pkg/opensearch/opensearch_upgrade.go keeps.
use verrazzano_monitoring_op.Prelude.{
  ◌≤◌, All-append, ℕ, String, ◌<>◌, ◌≡◌, refl, ap, ◌≢◌, inl, inr, Bool, true, false, ◌&&◌, ◌||◌,
  List, [], ◌∷◌, ◌++◌, arith, eq_iff, ◌=ₜ◌, if◌then◌else◌, Bool-cases, All, select,
}
use verrazzano_monitoring_op.Prelude.Io.{Error, Result}
use text.Mathlib.TextLemmas.{append_cancel_left}
use verrazzano_monitoring_op.Prelude.Text.{has_prefix, contains}
use verrazzano_monitoring_op.Prelude.Io.Cost.{
  AtMost, AtMost-pure, AtMost-raise, AtMost-lift, AtMost-if, AtMost-bind_free,
}
use verrazzano_monitoring_op.Server.{Config, Client, Call, http}
use verrazzano_monitoring_op.Server.Costs.{AtMost-request, AtMost-ask, AtMost-check_error}
use verrazzano_monitoring_op.Vmi.{Vmi}
use verrazzano_monitoring_op.Migration.{
  ReindexPayload, system_index, get_system_indices, is_application_index, get_application_indices,
  wrapped, get_indices, delete_index, reindex_to_data_stream, reindex_and_delete_indices,
  migrate_indices_to_data_streams, of_namespaces,
}

-- a request that deletes the index
abbrev pub deletes_index : String → String → Call → ℕ
deletes_index endpoint index (http method url body) =
    if method =ₜ "DELETE" && url =ₜ endpoint <> "/" <> index then 1 else 0
deletes_index endpoint index c = 0

-- an index of the operator's old naming
abbrev pub is_old_index : String → Bool
is_old_index index =
    has_prefix index "verrazzano-namespace-"
    || contains index "verrazzano-systemd-journal"
    || has_prefix index "verrazzano-logstash-"

same_index : (endpoint a b : String) → endpoint <> "/" <> a ≡ endpoint <> "/" <> b → a ≡ b
same_index endpoint a b e = append_cancel_left "/" a b (append_cancel_left endpoint _ _ e)

other_index :
    (endpoint a b : String) → a ≢ b → (endpoint <> "/" <> a =ₜ endpoint <> "/" <> b) ≡ false
other_index endpoint a b h = elim (Bool-cases (endpoint <> "/" <> a =ₜ endpoint <> "/" <> b)) [
  | inl e ↦
      absurd
        (h (same_index endpoint a b ((eq_iff (endpoint <> "/" <> a) (endpoint <> "/" <> b)).0 e)))
  | inr e ↦ e
]

-- every index of the list is another one
abbrev Others : String → List String → Type 0
Others index indices = All (λ i. i ≢ index) indices

Others-append :
    (index : String) (is js : List String)
    → Others index is
    → Others index js
    → Others index (is ++ js)
Others-append index is js h k = All-append (λ i. i ≢ index) is js h k

-- a list that holds one index at most, and only where the test succeeds
Others-if :
    (index i : String) (b : Bool) → (b ≡ true → i ≢ index) → Others index (if b then i ∷ [] else [])
Others-if index i true h = (h refl, tt)
Others-if index i false h = tt

Others-of_namespaces :
    (index i : String) (namespaces : List String)
    → i ≢ index
    → Others index (of_namespaces i namespaces)
unfolding of_namespaces
Others-of_namespaces index i [] h = tt
Others-of_namespaces index i (n ∷ ns) h =
    Others-append index _ _ (Others-if index i _ (λ e. h)) (Others-of_namespaces index i ns h)

or_first : (a b c : Bool) → a ≡ true → (a || b || c) ≡ true
or_first a b c h = rw h refl

or_second : (a b c : Bool) → b ≡ true → (a || b || c) ≡ true
or_second true b c h = refl
or_second false b c h = rw h refl

or_third : (a b c : Bool) → c ≡ true → (a || b || c) ≡ true
or_third true b c h = refl
or_third false true c h = refl
or_third false false c h = h

and_first : (a b : Bool) → (a && b) ≡ true → a ≡ true
and_first true b h = refl
and_first false b h = h

differ_by : (p : String → Bool) (a b : String) → p a ≡ true → p b ≡ false → a ≢ b
differ_by p a b h k e = cc (ap p e)

module _ (index : String) (foreign : is_old_index index ≡ false) where
  other : (i : String) → is_old_index i ≡ true → i ≢ index
  other i h e = differ_by is_old_index i index h foreign e

  Others-namespaces :
      (i : String) (b : Bool) (namespaces : List String)
      → (b ≡ true → i ≢ index)
      → Others index (if b then of_namespaces i namespaces else [])
  Others-namespaces i true namespaces h = Others-of_namespaces index i namespaces (h refl)
  Others-namespaces i false namespaces h = tt

  Others-system_index :
      (namespaces : List String) (i : String) → Others index (system_index namespaces i)
  unfolding system_index
  Others-system_index namespaces i =
      Others-append index _ _
        (Others-append index _ _
          (Others-namespaces i (has_prefix i "verrazzano-namespace-") namespaces (λ e. other i (
            or_first (has_prefix i "verrazzano-namespace-")
              (contains i "verrazzano-systemd-journal") (has_prefix i "verrazzano-logstash-") e)))
          (Others-if index i (contains i "verrazzano-systemd-journal") (λ e. other i (
            or_second (has_prefix i "verrazzano-namespace-")
              (contains i "verrazzano-systemd-journal") (has_prefix i "verrazzano-logstash-") e))))
        (Others-if index i (has_prefix i "verrazzano-logstash-") (λ e. other i (
          or_third (has_prefix i "verrazzano-namespace-") (contains i "verrazzano-systemd-journal")
            (has_prefix i "verrazzano-logstash-") e)))

  Others-system :
      (namespaces indices : List String) → Others index (get_system_indices namespaces indices)
  unfolding get_system_indices
  Others-system namespaces [] = tt
  Others-system namespaces (i ∷ is) =
      Others-append index (system_index namespaces i) _ (Others-system_index namespaces i)
        (Others-system namespaces is)

  Others-select :
      (p : String → Bool) (indices : List String)
      → ((i : String) → p i ≡ true → i ≢ index)
      → Others index (select p indices)
  unfolding select
  Others-select p [] h = tt
  Others-select p (i ∷ is) h = elim (Bool-cases (p i)) [
    | inl e ↦ rw e (h i e, Others-select p is h)
    | inr e ↦ rw e (Others-select p is h)
  ]

  Others-application :
      (namespaces indices : List String) → Others index (get_application_indices namespaces indices)
  unfolding get_application_indices is_application_index
  Others-application namespaces indices = Others-select _ indices (λ i e. other i (
      or_first (has_prefix i "verrazzano-namespace-") (contains i "verrazzano-systemd-journal")
        (has_prefix i "verrazzano-logstash-")
        (and_first (has_prefix i "verrazzano-namespace-") _ e)))

module _ (quote_meta : String → String) (match : String → String → Bool)
    (serialize : ReindexPayload → Result String) (config : Config) (endpoint : String) where
  pub AtMost-reindex :
      {weight : Call → ℕ}
      (quiet : (payload : String) → weight (http "POST" (endpoint <> "/_reindex") payload) ≤ 0)
      (source dest seconds : String)
      → AtMost weight 0
          (reindex_to_data_stream quote_meta match serialize config endpoint source dest seconds)
  unfolding reindex_to_data_stream
  AtMost-reindex quiet source dest seconds = AtMost-bind_free 0 _ _ (AtMost-lift 0 _) (λ payload.
      AtMost-bind_free 0 _ _
        (AtMost-request config "POST" (endpoint <> "/_reindex") payload _ (quiet payload))
        (λ reply. AtMost-pure 0 tt))

pub AtMost-wrapped :
    {weight : Call → ℕ} {n : ℕ} {A : Type 0} (e : Error) (m : Client A)
    → AtMost weight n m
    → AtMost weight n (wrapped e m)
AtMost-wrapped e m h = record { bound = h.bound }

module _ (quote_meta : String → String) (match : String → String → Bool)
    (serialize : ReindexPayload → Result String) (config : Config) (vmi : Vmi)
    (stream_value endpoint index : String) where
  AtMost-delete :
      (i : String)
      → i ≢ index
      → AtMost (deletes_index endpoint index) 0 (delete_index config endpoint i)
  unfolding delete_index
  AtMost-delete i h =
      AtMost-bind_free 0 _ _ (AtMost-check_error (config.new_request_error (endpoint <> "/" <> i)))
        (λ u.
          AtMost-bind_free 0 _ _
            (AtMost-wrapped _ _ (
              AtMost-ask 0 (http "DELETE" (endpoint <> "/" <> i) "")
                (rw (other_index endpoint i index h) (omega arith))))
            (λ reply. AtMost-if 0 _ _ _ (AtMost-raise 0 _) (AtMost-pure 0 tt)))

  AtMost-each :
      (indices : List String) (system : Bool)
      → Others index indices
      → AtMost (deletes_index endpoint index) 0 (
          reindex_and_delete_indices quote_meta match serialize config vmi stream_value endpoint
            indices system)
  unfolding reindex_and_delete_indices
  AtMost-each [] system h = AtMost-pure 0 tt
  AtMost-each (i ∷ is) system (h, hs) = AtMost-bind_free 0 _ _ (AtMost-lift 0 _) (λ seconds.
      AtMost-bind_free 0 _ _
        (AtMost-reindex quote_meta match serialize config endpoint (λ payload. omega arith) i _
          seconds)
        (λ u. AtMost-bind_free 0 _ _ (AtMost-delete i h) (λ v. AtMost-each is system hs)))

  AtMost-get_indices : AtMost (deletes_index endpoint index) 0 (get_indices config endpoint)
  unfolding get_indices
  AtMost-get_indices =
      AtMost-bind_free 0 _ _
        (AtMost-request config "GET" (endpoint <> "/_aliases") "" _ (omega arith))
        (λ reply.
          AtMost-bind_free 0 _ _ (AtMost-wrapped _ _ (AtMost-check_error reply.decode_error))
            (λ u. AtMost-pure 0 reply.indices))

  -- Whatever the server answers, the migration sends no request that deletes an index whose name
  -- neither begins with verrazzano-namespace- or verrazzano-logstash- nor contains
  -- verrazzano-systemd-journal.
  pub migration_spares_foreign :
      (namespaces_value : String)
      → is_old_index index ≡ false
      → AtMost (deletes_index endpoint index) 0 (
          migrate_indices_to_data_streams quote_meta match serialize config vmi namespaces_value
            stream_value endpoint)
  unfolding migrate_indices_to_data_streams
  migration_spares_foreign namespaces_value foreign =
      AtMost-bind_free 0 _ _ (AtMost-wrapped _ _ AtMost-get_indices) (λ indices.
        AtMost-bind_free 0 _ _
          (AtMost-wrapped _ _ (AtMost-each _ true (Others-system index foreign _ indices)))
          (λ u.
            AtMost-wrapped _ _ (AtMost-each _ false (Others-application index foreign _ indices))))
