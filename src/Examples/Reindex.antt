-- ===== src/Examples/Reindex.antt =====
-- Migrations of old indices.
use verrazzano_monitoring_op.Prelude.{
  ◌≤◌, String, ◌≡◌, refl, ◌≢◌, Bool, false, List, [], ◌∷◌, arith,
}
use verrazzano_monitoring_op.Prelude.Io.{Result, ok, err, panic}
use verrazzano_monitoring_op.Prelude.Io.Cost.{AtMost, total}
use verrazzano_monitoring_op.Prelude.Text.{parse_uint, digits}
use verrazzano_monitoring_op.Retention.{calculate_seconds}
use verrazzano_monitoring_op.Migration.Failed.{deletions, failed_reindex_deletes_nothing}
use verrazzano_monitoring_op.Server.{Call, http, Reply}
use verrazzano_monitoring_op.Migration.{
  ReindexPayload, reindex_and_delete_indices, migrate_indices_to_data_streams,
}
use verrazzano_monitoring_op.Retention.Seconds.{Means, calculate_seconds_lem}
use verrazzano_monitoring_op.Migration.Kept.{deletes_index, migration_spares_foreign}
use verrazzano_monitoring_op.Examples.Inputs.{cluster, settings, answer}

calculate_seconds_lem_example : calculate_seconds "7d" ≡ ok 604800
unfolding digits
calculate_seconds_lem_example =
    calculate_seconds_lem 7 "d" 86400 Means.days (omega arith) (omega arith)

-- so many days that their seconds pass 64 bits
wrapped_seconds : calculate_seconds "213503982334602d" ≡ ok 61184
unfolding calculate_seconds parse_uint
wrapped_seconds = refl

no_unit : calculate_seconds "7w" ≡ err "conversion to seconds for time unit is unsupported"
unfolding calculate_seconds parse_uint
no_unit = refl

empty_age : calculate_seconds "" ≡ panic
unfolding calculate_seconds
empty_age = refl

abbrev quoted : String → String
quoted s = s

abbrev matches : String → String → Bool
matches pattern text = false

abbrev serialized : ReindexPayload → Result String
serialized p = ok p.source_index

-- a server with an old index and another one
abbrev old_server : List Call → Call → Reply
old_server tr c = record (answer 200 "") { indices = "orders" ∷ "verrazzano-namespace-shop" ∷ [] }

migration_run :
    migrate_indices_to_data_streams quoted matches serialized settings cluster "" "" "http://os"
      old_server []
    ≡ (
      ok tt,
      http "GET" "http://os/_aliases" ""
          ∷ http "POST" "http://os/_reindex" "verrazzano-namespace-shop"
          ∷ http "DELETE" "http://os/verrazzano-namespace-shop" ""
          ∷ [],
    )
unfolding migrate_indices_to_data_streams
migration_run = refl

migration_spares_foreign_example :
    AtMost
      (deletes_index "http://os" "orders")
      0
      (migrate_indices_to_data_streams quoted matches serialized settings cluster "" "" "http://os")
migration_spares_foreign_example =
    migration_spares_foreign quoted matches serialized settings cluster "" "http://os" "orders" ""
      refl

failed_reindex_deletes_nothing_example :
    ((reindex_and_delete_indices quoted matches serialized settings cluster "" "http://os"
        ("verrazzano-namespace-shop" ∷ [])
        false
        (λ tr c. answer 500 "")
        []).0
      ≢ ok tt)
    × (total deletions
          (reindex_and_delete_indices quoted matches serialized settings cluster "" "http://os"
            ("verrazzano-namespace-shop" ∷ [])
            false
            (λ tr c. answer 500 "")
            []).1
        ≤ total deletions [])
failed_reindex_deletes_nothing_example =
    failed_reindex_deletes_nothing quoted matches serialized settings cluster "" "http://os"
      "verrazzano-namespace-shop" [] false (λ tr c. answer 500 "") []
      (λ payload h. omega (arith, h.1))
