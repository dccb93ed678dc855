-- ===== src/StorageClasses.antt =====
-- The storage classes of pkg/vmo/pvc.go.
pub mod Costs
use verrazzano_monitoring_op.Prelude.{
  String, Bool, true, false, not, ◌||◌, Option, none, some, List, [], ◌∷◌, ◌=ₜ◌, if◌then◌else◌,
}
use verrazzano_monitoring_op.Prelude.Io.{pure, ◌>>=◌}
use verrazzano_monitoring_op.Prelude.Dict.{lookup}
use verrazzano_monitoring_op.Kube.{Labels, StorageClass, Pvc}
use verrazzano_monitoring_op.Server.{Config, Client, get_storage_class, list_storage_classes, ask}

abbrev pub oci_flex_volume_provisioner : String
oci_flex_volume_provisioner = "oracle.com/oci"

abbrev pub oci_availability_domain_label : String
oci_availability_domain_label = "oci-availability-domain"

pub record StorageClassInfo : Type 0 where
  pub name : String
  pub pvc_accepts_zone : Bool
  pub pvc_zone_match_label : String

abbrev pub no_storage_class : StorageClass
no_storage_class = record {
  name = "";
  provisioner = "";
  allow_volume_expansion = none;
  annotations = [];
}

-- a lister's error is wrapped, which does not change that it is one
unfoldable pub get_storage_class_by_name : String → Client StorageClass
unfolding ask
get_storage_class_by_name class_name = do
  reply ← ask (get_storage_class class_name)
  pure reply.storage_class

unfoldable pub get_storage_class_override : Config → Option String → Client (Option StorageClass)
unfolding get_storage_class_by_name
get_storage_class_override config (some class_name) = do
  storage_class ← get_storage_class_by_name class_name
  pure (some storage_class)
get_storage_class_override config none =
    if not (config.storage_class =ₜ "")
    then (do
      storage_class ← get_storage_class_by_name config.storage_class
      pure (some storage_class))
    else pure none

-- `m[k]` of a missing key is the empty string
text_of : Option String → String
text_of none = ""
text_of (some s) = s

is_default : StorageClass → Bool
unfolding text_of lookup
is_default storage_class =
    text_of (lookup "storageclass.kubernetes.io/is-default-class" storage_class.annotations)
      =ₜ "true"
    || text_of (lookup "storageclass.beta.kubernetes.io/is-default-class" storage_class.annotations)
      =ₜ "true"

unfoldable pub get_default_storage_class : List StorageClass → StorageClass
unfolding is_default
get_default_storage_class [] = no_storage_class
get_default_storage_class (c ∷ cs) = if is_default c then c else get_default_storage_class cs

or_default : Option StorageClass → Client StorageClass
unfolding get_default_storage_class ask
or_default (some storage_class) = pure storage_class
or_default none = do
  reply ← ask list_storage_classes
  pure (get_default_storage_class reply.storage_classes)

unfoldable pub determine_storage_class : Config → Option String → Client StorageClass
unfolding or_default get_storage_class_override
determine_storage_class config class_name = do
  chosen ← get_storage_class_override config class_name
  or_default chosen

unfoldable pub parse_storage_class_info : Config → StorageClass → StorageClassInfo
parse_storage_class_info config storage_class =
    if storage_class.provisioner =ₜ oci_flex_volume_provisioner
    then record {
      name = storage_class.name;
      pvc_accepts_zone = true;
      pvc_zone_match_label = oci_availability_domain_label;
    }
    else if not (config.zone_match_label =ₜ "")
    then record {
      name = storage_class.name;
      pvc_accepts_zone = true;
      pvc_zone_match_label = config.zone_match_label;
    }
    else record { name = storage_class.name; pvc_accepts_zone = false; pvc_zone_match_label = "" }

zone_of : StorageClassInfo → Option Labels → String
unfolding text_of lookup
zone_of info none = ""
zone_of info (some match_labels) =
    if info.pvc_accepts_zone then text_of (lookup info.pvc_zone_match_label match_labels) else ""

unfoldable pub get_zone_from_existing_pvc : StorageClassInfo → Pvc → String
unfolding zone_of
get_zone_from_existing_pvc info existing_pvc = zone_of info existing_pvc.selector
