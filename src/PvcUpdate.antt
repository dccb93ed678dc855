-- ===== src/PvcUpdate.antt =====
-- pkg/vmo/pvc_update.go, and `CreatePersistentVolumeClaims` of pkg/vmo/pvc.go.
-- The instance that is changed in memory is passed along. Log calls are left out.
pub mod Cleanup
pub mod Version
use verrazzano_monitoring_op.Prelude.{
  ℕ, suc, String, Bool, true, false, not, ◌&&◌, Option, none, some, List, [], ◌∷◌, ◌++◌, ◌==◌, ◌=ₜ◌,
  if◌then◌else◌, any, select,
}
use verrazzano_monitoring_op.Prelude.Int.{ℤ, ltb_ℤ}
use verrazzano_monitoring_op.Prelude.Io.{
  Error, Result, ok, err, panic, pure, crash, lift, attempt, call, ◌>>=◌, ◌>>◌,
}
use verrazzano_monitoring_op.Prelude.Text.{contains, split, join}
use verrazzano_monitoring_op.Prelude.Dict.{Dict, insert}
use verrazzano_monitoring_op.Kube.{Pvc, StorageClass, Deployment}
use verrazzano_monitoring_op.Nodes.{data_nodes}
use verrazzano_monitoring_op.Names.{last_token, set_last}
use verrazzano_monitoring_op.Health.{is_data_resizable}
use verrazzano_monitoring_op.Pvc.{
  get_meta_labels, new_pvcs, get_schedulable_ads, choose_random_element_from_slice,
  new_ad_pvc_counter, inc, get_least_used_ad,
}
use verrazzano_monitoring_op.StorageClasses.{
  StorageClassInfo, determine_storage_class, parse_storage_class_info, get_zone_from_existing_pvc,
}
use verrazzano_monitoring_op.Server.{
  Config, Client, list_deployments, list_pvcs, get_pvc, create_pvc, update_pvc, delete_pvc,
  random_id, Reply, ask,
}
use verrazzano_monitoring_op.Vmi.{Vmi, Storage, ElasticsearchNode}
use verrazzano_monitoring_op.Claims.{get_in_use_pvc_names}
use verrazzano_monitoring_op.VmoStorage.{set_per_node_storage, update_vmo_storage_for_pvc}

-- the length of a text in ASCII
text_length : String → ℕ
text_length String.[] = 0
text_length (String.◌∷◌ c s) = suc (text_length s)

-- the name with the random suffix `suffix`
unfoldable pub with_suffix : String → ℕ → String → String
unfolding text_length split join
with_suffix pvc_name size suffix =
    let parts = split pvc_name "-" in
    if not (text_length (last_token parts) == size)
    then join (parts ++ suffix ∷ []) "-"
    else join (set_last parts suffix) "-"

unfoldable pub new_pvc_name : String → ℕ → Client String
unfolding with_suffix ask
new_pvc_name pvc_name size = do
  reply ← ask (random_id size)
  pure (with_suffix pvc_name size reply.text)

unfoldable pub is_open_search_pvc : Pvc → Bool
is_open_search_pvc pvc = contains pvc.name "es-data"

unfoldable pub pvc_needs_resize : Pvc → Pvc → Bool
pvc_needs_resize existing_pvc expected_pvc = ltb_ℤ existing_pvc.storage expected_pvc.storage

expands : StorageClass → Bool
expands storage_class = is_true storage_class.allow_volume_expansion
  where
    is_true : Option Bool → Bool
    is_true none = false
    is_true (some b) = b

-- a new claim, whose name replaces the old one in the instance
replace_pvc : Vmi → Pvc → Pvc → Client (Option String × Vmi)
unfolding new_pvc_name ask update_vmo_storage_for_pvc
replace_pvc vmo existing_pvc expected_pvc = do
  new_name ← new_pvc_name expected_pvc.name 5
  ask (
      create_pvc vmo.namespace
        (record expected_pvc { selector = existing_pvc.selector; name = new_name }))
  pure (some new_name, update_vmo_storage_for_pvc vmo existing_pvc.name new_name)

unfoldable pub resize_pvc : Config → Vmi → Pvc → Pvc → StorageClass → Client (Option String × Vmi)
unfolding expands is_open_search_pvc is_data_resizable replace_pvc ask
resize_pvc config vmo existing_pvc expected_pvc storage_class =
    if expands storage_class
    then (do
      ask (update_pvc vmo.namespace (record existing_pvc { storage = expected_pvc.storage }))
      pure (none, vmo))
    else (do
      if is_open_search_pvc expected_pvc then is_data_resizable config vmo else pure tt
      replace_pvc vmo existing_pvc expected_pvc)

unfoldable pub get_unbound_pvcs : List Pvc → List String → List Pvc
unfolding select any
get_unbound_pvcs pvcs in_use = select (λ pvc. not (any in_use (λ name. name =ₜ pvc.name))) pvcs

unfoldable pub delete_pvcs : List Pvc → Client (Unit {0})
unfolding ask
delete_pvcs [] = pure tt
delete_pvcs (pvc ∷ pvcs) = do ask (delete_pvc pvc.namespace pvc.name); delete_pvcs pvcs

unfoldable pub cleanup_unused_pvcs : Vmi → Client (Unit {0})
unfolding get_in_use_pvc_names get_unbound_pvcs delete_pvcs ask
cleanup_unused_pvcs vmo = do
  deployments ← ask (list_deployments vmo.namespace (get_meta_labels vmo))
  all_pvcs ← ask (list_pvcs vmo.namespace (get_meta_labels vmo))
  delete_pvcs (get_unbound_pvcs all_pvcs.pvcs (get_in_use_pvc_names deployments.deployments vmo))

-- the two results of `CreatePersistentVolumeClaims` and the instance
pub record PvcOutcome : Type 0 where
  pub pvc_to_ad : Option (Dict String)
  pub error : Option Error
  pub vmo : Vmi

pub record Progress : Type 0 where
  pub vmo : Vmi
  pub counter : Dict ℕ
  pub pvc_to_ad : Dict String

-- one round of the loop goes on, or returns
pub data Round : Type 0 where
  next : Progress → Round
  return : PvcOutcome → Round

-- `if err != nil { return ads, err }`
caught_by : {A B : Type 0} → (Error → B) → (A → Client B) → Result A → Client B
caught_by handler f (ok a) = f a
caught_by handler f (err e) = pure (handler e)
caught_by handler f panic = crash

caught : {A B : Type 0} → (Error → B) → Client A → (A → Client B) → Client B
unfolding caught_by
caught handler m f = do r ← attempt m; caught_by handler f r

failed : Vmi → Option (Dict String) → Error → PvcOutcome
failed vmo ads e = record { pvc_to_ad = ads; error = some e; vmo = vmo }

-- what follows for an existing claim that has, or needs no other, size
note_zone : StorageClassInfo → Pvc → String → Progress → Progress
unfolding get_zone_from_existing_pvc inc is_open_search_pvc insert
note_zone info existing_pvc pvc_name p =
    if info.pvc_accepts_zone
    then (let zone = get_zone_from_existing_pvc info existing_pvc in
        record p {
          pvc_to_ad = insert pvc_name zone p.pvc_to_ad;
          counter = if is_open_search_pvc existing_pvc then inc p.counter zone else p.counter;
        })
    else record p { pvc_to_ad = insert pvc_name "" p.pvc_to_ad }

after_resize : StorageClassInfo → Pvc → String → Progress → Option String × Vmi → Round
unfolding note_zone
after_resize info existing_pvc pvc_name p (none, vmo) =
    next (note_zone info existing_pvc pvc_name (record p { vmo = vmo }))
after_resize info existing_pvc pvc_name p (some new_name, vmo) =
    return (record { pvc_to_ad = some p.pvc_to_ad; error = none; vmo = vmo })

apply_existing : Config → StorageClassInfo → Progress → Pvc → Pvc → Client Round
unfolding pvc_needs_resize caught failed after_resize note_zone determine_storage_class resize_pvc
apply_existing config info p expected_pvc existing_pvc =
    if pvc_needs_resize existing_pvc expected_pvc
    then caught (λ e. return (failed p.vmo none e))
        (do
          storage_class ← determine_storage_class config existing_pvc.storage_class_name
          resize_pvc config p.vmo existing_pvc expected_pvc storage_class)
        (λ r. pure (after_resize info existing_pvc expected_pvc.name p r))
    else pure (next (note_zone info existing_pvc expected_pvc.name p))

-- the availability domain of a new claim
choose_ad : StorageClassInfo → List String → Progress → Pvc → Client String
unfolding is_open_search_pvc get_least_used_ad choose_random_element_from_slice
choose_ad info schedulable_ads p expected_pvc =
    if not info.pvc_accepts_zone
    then pure ""
    else if is_open_search_pvc expected_pvc
    then get_least_used_ad p.counter
    else choose_random_element_from_slice schedulable_ads

apply_new : StorageClassInfo → List String → Progress → Pvc → Client Round
unfolding choose_ad caught failed inc is_open_search_pvc insert ask
apply_new info schedulable_ads p expected_pvc = do
  new_ad ← choose_ad info schedulable_ads p expected_pvc
  let placed =
      if info.pvc_accepts_zone
      then record expected_pvc { selector = some ((info.pvc_zone_match_label, new_ad) ∷ []) }
      else expected_pvc
  let counter =
      if info.pvc_accepts_zone && is_open_search_pvc expected_pvc
      then inc p.counter new_ad
      else p.counter
  caught (λ e. return (failed p.vmo (some p.pvc_to_ad) e)) (ask (create_pvc p.vmo.namespace placed))
      (λ r. pure (
        next (record p {
          counter = counter;
          pvc_to_ad = insert expected_pvc.name new_ad p.pvc_to_ad;
        })))

-- a claim that the lister does not return is created
apply_found :
    Config → StorageClassInfo → List String → Progress → Pvc → Option Error → Reply → Client Round
unfolding apply_existing apply_new
apply_found config info ads p expected_pvc none reply =
    apply_existing config info p expected_pvc reply.pvc
apply_found config info ads p expected_pvc (some e) reply = apply_new info ads p expected_pvc

unfoldable pub apply_pvc : Config → StorageClassInfo → List String → Progress → Pvc → Client Round
unfolding apply_found
apply_pvc config info ads p expected_pvc =
    if expected_pvc.name =ₜ ""
    then pure (return (record { pvc_to_ad = some p.pvc_to_ad; error = none; vmo = p.vmo }))
    else (do
      reply ← call (get_pvc p.vmo.namespace expected_pvc.name)
      apply_found config info ads p expected_pvc reply.error reply)

go_on : (Progress → Client PvcOutcome) → Round → Client PvcOutcome
go_on rest (next p) = rest p
go_on rest (return o) = pure o

finish : Progress → Client PvcOutcome
unfolding caught failed cleanup_unused_pvcs
finish p =
    caught (failed p.vmo (some p.pvc_to_ad)) (cleanup_unused_pvcs p.vmo)
      (λ u. pure (record { pvc_to_ad = some p.pvc_to_ad; error = none; vmo = p.vmo }))

apply_pvcs : Config → StorageClassInfo → List String → List Pvc → Progress → Client PvcOutcome
unfolding apply_pvc go_on finish
apply_pvcs config info ads [] p = finish p
apply_pvcs config info ads (expected_pvc ∷ expected_pvcs) p = do
  round ← apply_pvc config info ads p expected_pvc
  go_on (apply_pvcs config info ads expected_pvcs) round

is_empty : List Pvc → Bool
is_empty [] = true
is_empty (x ∷ xs) = false

with_ads : Config → StorageClassInfo → Vmi → List Pvc → List String → Client PvcOutcome
unfolding apply_pvcs failed new_ad_pvc_counter is_empty
with_ads config info vmo expected_pvcs ads =
    if not (is_empty expected_pvcs) && info.name =ₜ ""
    then pure (failed vmo none "cannot create PVCs when the cluster has no storage class")
    else apply_pvcs config info ads expected_pvcs
        (record { vmo = vmo; counter = new_ad_pvc_counter ads; pvc_to_ad = [] })

unfoldable pub create_persistent_volume_claims :
    (String → Result ℤ) → Config → Vmi → Client PvcOutcome
unfolding with_ads caught failed new_pvcs get_schedulable_ads determine_storage_class
    parse_storage_class_info set_per_node_storage
create_persistent_volume_claims parse_quantity config vmo0 =
    let vmo = record vmo0 {
      spec = record vmo0.spec { opensearch = set_per_node_storage vmo0.spec.opensearch };
    } in
    caught (failed vmo none) (determine_storage_class config vmo.spec.storage_class)
      (λ storage_class.
        caught (failed vmo none) (lift (new_pvcs parse_quantity vmo storage_class.name))
          (λ expected_pvcs. caught (failed vmo (some [])) get_schedulable_ads (λ ads.
            with_ads config (parse_storage_class_info config storage_class) vmo expected_pvcs ads)))
