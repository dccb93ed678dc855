-- ===== src/SavedObject.antt =====
-- The documents of OpenSearch Dashboards: pkg/opensearch_dashboards.
use verrazzano_monitoring_op.Prelude.{String}

-- an index pattern that Dashboards holds, with its title from `Attributes`
pub record SavedObject : Type 0 where
  pub id : String
  pub title : String

-- one that is to be made
pub record SavedObjectType : Type 0 where
  pub type : String
  pub title : String
  pub time_field_name : String
