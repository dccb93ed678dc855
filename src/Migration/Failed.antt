-- ===== src/Migration/Failed.antt =====
-- What the migration of pkg/opensearch/opensearch_upgrade.go does where a reindex fails.
use verrazzano_monitoring_op.Prelude.{
  ◌≤◌, none, ℕ, String, ◌<>◌, ◌≡◌, refl, ◌≢◌, Bool, List, ◌∷◌, arith, ◌=ₜ◌, if◌then◌else◌,
}
use verrazzano_monitoring_op.Prelude.Io.{pure, Error, Result, ok, err, panic, lift, continue, ◌>>=◌}
use verrazzano_monitoring_op.Prelude.Io.Cost.{total}
use verrazzano_monitoring_op.Server.{Config, Client, Call, http, Reply, request, ask}
use verrazzano_monitoring_op.Vmi.{Vmi}
use verrazzano_monitoring_op.Migration.{
  create_reindex_payload, stream_of, ReindexPayload, delete_index, reindex_to_data_stream,
  reindex_and_delete_indices,
}
use verrazzano_monitoring_op.Migration.Kept.{AtMost-reindex}
use verrazzano_monitoring_op.Retention.{get_retention_age_in_seconds}

-- a request that deletes anything
abbrev pub deletions : Call → ℕ
deletions (http method url body) = if method =ₜ "DELETE" then 1 else 0
deletions c = 0

-- a failure, without a request that deletes
abbrev Stopped : (List Call → Call → Reply) → List Call → Client (Unit {0}) → Type 0
Stopped env tr m = ((m env tr).0 ≢ ok tt) × (total deletions (m env tr).1 ≤ total deletions tr)

Stopped-continue :
    (k : Client (Unit {0})) (env : List Call → Call → Reply) (r : Result (Unit {0}))
    (start tr : List Call)
    → r ≢ ok tt
    → total deletions tr ≤ total deletions start
    → ((continue (λ u. k) env r tr).0 ≢ ok tt)
      × (total deletions (continue (λ u. k) env r tr).1 ≤ total deletions start)
Stopped-continue k env (ok u) start tr h le = absurd (h refl)
Stopped-continue k env (err e) start tr h le = ((λ q. cc q), le)
Stopped-continue k env panic start tr h le = ((λ q. cc q), le)

Stopped-lift :
    (r : Result String) (f : String → Client (Unit {0})) (env : List Call → Call → Reply)
    (tr : List Call)
    → ((s : String) → Stopped env tr (f s))
    → Stopped env tr (lift r >>= f)
Stopped-lift (ok s) f env tr h = h s
Stopped-lift (err e) f env tr h = ((λ q. cc q), omega arith)
Stopped-lift panic f env tr h = ((λ q. cc q), omega arith)

-- the answer of a reindex that was carried out
abbrev pub Accepted : Reply → Type 0
Accepted reply = (reply.error ≡ none) × (reply.status ≡ 200)

posted :
    (config : Config) (url payload : String) (e : Error) (env : List Call → Call → Reply)
    (tr : List Call)
    → (continue
        (λ reply. pure tt)
        env
        (request config "POST" url payload e env tr).0
        (request config "POST" url payload e env tr).1).0
      ≡ ok tt
    → Accepted (env tr (http "POST" url payload))
unfolding request ask
posted config url payload e env tr h = ground arith

refused :
    (config : Config) (url : String) (e : Error) (env : List Call → Call → Reply) (tr : List Call)
    → ((payload : String) → Accepted (env tr (http "POST" url payload)) → ⊥)
    → (r : Result String)
    → ((lift r >>= (λ payload. request config "POST" url payload e >>= (λ reply. pure tt))) env
        tr).0
      ≢ ok tt
refused config url e env tr h (ok payload) k = h payload (posted config url payload e env tr k)
refused config url e env tr h (err f) k = cc k
refused config url e env tr h panic k = cc k

module _ (quote_meta : String → String) (match : String → String → Bool)
    (serialize : ReindexPayload → Result String) (config : Config) (vmi : Vmi)
    (stream_value endpoint : String) where
  reindex_failed :
      (source dest seconds : String) (env : List Call → Call → Reply) (tr : List Call)
      → ((payload : String) → Accepted (env tr (http "POST" (endpoint <> "/_reindex") payload)) → ⊥)
      → (reindex_to_data_stream quote_meta match serialize config endpoint source dest seconds env
          tr).0
        ≢ ok tt
  unfolding reindex_to_data_stream
  reindex_failed source dest seconds env tr h e =
      refused config (endpoint <> "/_reindex") _ env tr h
        (serialize (create_reindex_payload source dest seconds)) e

  quiet :
      (source dest seconds : String) (env : List Call → Call → Reply) (tr : List Call)
      → total deletions
          (reindex_to_data_stream quote_meta match serialize config endpoint source dest seconds env
            tr).1
        ≤ total deletions tr
  quiet source dest seconds env tr = omega (
    arith,
    (AtMost-reindex quote_meta match serialize config endpoint {weight = deletions}
          (λ payload. omega arith) source dest seconds).bound
        env tr,
  )

  -- If the request to reindex the first index of the list, whatever its body, is not answered with
  -- success, then the loop over the indices fails and sends no request that deletes an index.
  pub failed_reindex_deletes_nothing :
      (index : String) (indices : List String) (system : Bool) (env : List Call → Call → Reply)
      (tr : List Call)
      → ((payload : String) → Accepted (env tr (http "POST" (endpoint <> "/_reindex") payload)) → ⊥)
      → ((reindex_and_delete_indices quote_meta match serialize config vmi stream_value endpoint
            (index ∷ indices)
            system
            env
            tr).0
          ≢ ok tt)
        × (total deletions
              (reindex_and_delete_indices quote_meta match serialize config vmi stream_value
                endpoint
                (index ∷ indices)
                system
                env
                tr).1
            ≤ total deletions tr)
  unfolding reindex_and_delete_indices
  failed_reindex_deletes_nothing index indices system env tr h =
      let data_stream = stream_of stream_value system index in
      let next : Client (Unit {0}) = delete_index config endpoint index >>= (λ u.
        reindex_and_delete_indices quote_meta match serialize config vmi stream_value endpoint
          indices system) in
      Stopped-lift (get_retention_age_in_seconds quote_meta match vmi data_stream)
        (λ seconds.
          reindex_to_data_stream quote_meta match serialize config endpoint index data_stream
            seconds
          >>= (λ u. next))
        env tr
        (λ seconds.
          Stopped-continue next env _ tr _ (reindex_failed index data_stream seconds env tr h)
            (quiet index data_stream seconds env tr))
