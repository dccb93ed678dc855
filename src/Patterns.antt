-- ===== src/Patterns.antt =====
-- How the title of an index pattern is migrated: `constructUpdatedPattern` of
-- pkg/opensearch_dashboards/opensearch_dashboards_upgrade.go.
use verrazzano_monitoring_op.Prelude.{
  String, ◌<>◌, Bool, not, ◌&&◌, ◌||◌, List, [], ◌∷◌, ◌++◌, ◌=ₜ◌, if◌then◌else◌, any,
}
use verrazzano_monitoring_op.Prelude.Text.{split, join, has_prefix, contains}
use verrazzano_monitoring_op.Retention.{convert_to_regexp}
use verrazzano_monitoring_op.Migration.{system_namespaces, data_stream_name, replace_first}

-- `regexp.QuoteMeta`, `regexp.MatchString` without its error, and the values of two environment
-- variables
module _ (quote_meta : String → String) (match : String → String → Bool)
    (namespaces_value stream_value : String) where
  is_system_index_match : String → Bool
  unfolding system_namespaces any
  is_system_index_match pattern =
      match pattern "verrazzano-logstash-"
      || match pattern "verrazzano-systemd-journal"
      || any (system_namespaces namespaces_value)
          (λ namespace. match pattern ("verrazzano-namespace-" <> namespace))

  -- what a pattern that may match namespace indices is replaced by
  application_pattern : String → String → Bool → List String
  unfolding replace_first
  application_pattern each regexp_string system_index_match =
      if match regexp_string "verrazzano-namespace-"
      then "verrazzano-application-*" ∷ []
      else if not (has_prefix each "verrazzano-namespace-")
      then []
      else if system_index_match && not (contains each "*")
      then []
      else replace_first each "verrazzano-namespace-" "verrazzano-application-" ∷ []

  updated_parts : String → List String
  unfolding is_system_index_match application_pattern convert_to_regexp data_stream_name
  updated_parts each =
      if has_prefix each "verrazzano-" && not (each =ₜ "verrazzano-*")
      then (let regexp_string = convert_to_regexp quote_meta each in
          let system_index_match = is_system_index_match regexp_string in
          (if system_index_match then data_stream_name stream_value ∷ [] else [])
          ++ application_pattern each regexp_string system_index_match)
      else each ∷ []

  all_parts : List String → List String
  unfolding updated_parts
  all_parts [] = []
  all_parts (each ∷ patterns) = updated_parts each ++ all_parts patterns

  unfoldable pub construct_updated_pattern : String → String
  unfolding all_parts
  construct_updated_pattern original_pattern = join (all_parts (split original_pattern ",")) ","
