-- ===== src/Pvc.antt =====
-- The persistent volume claims: pkg/resources/pvcs/pvc.go, and the counter of availability domains
-- and the choice of one of pkg/vmo/pvc.go and pkg/vmo/utils.go. `parse_quantity` is
-- `resource.ParseQuantity` of k8s.io/apimachinery, in bytes.
pub mod LeastUsed
use verrazzano_monitoring_op.Prelude.{
  ℕ, ◌+◌, ◌%◌, String, Bool, false, not, ◌&&◌, ◌||◌, Option, none, some, List, [], ◌∷◌, ◌++◌, ltb,
  ◌==◌, ◌=ₜ◌, if◌then◌else◌, length, get_or, any, select,
}
use verrazzano_monitoring_op.Prelude.Int.{ℤ}
use verrazzano_monitoring_op.Prelude.Io.{Result, ok, err, panic, pure, crash, attempt, ◌>>=◌}
use verrazzano_monitoring_op.Prelude.Dict.{Dict, lookup, insert}
use verrazzano_monitoring_op.Kube.{Labels, Pvc, OwnerReference, KubeNode}
use verrazzano_monitoring_op.Nodes.{data_nodes}
use verrazzano_monitoring_op.Server.{Client, list_nodes, random, Reply, ask}
use verrazzano_monitoring_op.Vmi.{Vmi, Storage, ElasticsearchNode}

abbrev pub get_meta_labels : Vmi → Labels
get_meta_labels vmo = ("k8s-app", "verrazzano.io") ∷ ("vmo.v1.verrazzano.io", vmo.name) ∷ []

unfoldable pub get_comp_label : String → String
get_comp_label component_name =
    if component_name =ₜ "es-master"
      || component_name =ₜ "es-data"
      || component_name =ₜ "es-ingest"
      || component_name =ₜ "os-ingest"
    then "opensearch"
    else component_name

abbrev pub get_owner_references : Vmi → List OwnerReference
get_owner_references vmo =
    if vmo.spec.cascading_delete
    then record {
      api_version = "verrazzano.io/v1";
      kind = "VerrazzanoMonitoringInstance";
      name = vmo.name;
      uid = vmo.uid;
    }
      ∷ []
    else []

pvc_elements : Vmi → String → String → ℤ → List String → List Pvc
unfolding get_comp_label insert
pvc_elements vmo component class_name quantity [] = []
pvc_elements vmo component class_name quantity (name ∷ names) =
    record {
      name = name;
      namespace = vmo.namespace;
      selector = none;
      storage = quantity;
      storage_class_name = some class_name;
      owner_references = get_owner_references vmo;
      labels = insert "verrazzano-component" (get_comp_label component) (get_meta_labels vmo);
    }
    ∷ pvc_elements vmo component class_name quantity names

module _ (parse_quantity : String → Result ℤ) where
  unfoldable pub create_pvc_elements : Vmi → Storage → String → String → Result (List Pvc)
  unfolding pvc_elements
  create_pvc_elements vmo s component class_name = parsed (parse_quantity s.size)
    where
      parsed : Result ℤ → Result (List Pvc)
      parsed (ok quantity) = ok (pvc_elements vmo component class_name quantity s.pvc_names)
      parsed (err e) = err e
      parsed panic = panic

  -- the claims of a storage element that has a size, and none for others
  sized_elements : Vmi → Option Storage → String → String → Result (List Pvc)
  unfolding create_pvc_elements
  sized_elements vmo none component class_name = ok []
  sized_elements vmo (some s) component class_name =
      if s.size =ₜ "" then ok [] else create_pvc_elements vmo s component class_name

  both : Result (List Pvc) → Result (List Pvc) → Result (List Pvc)
  both (ok xs) (ok ys) = ok (xs ++ ys)
  both (ok xs) (err e) = err e
  both (ok xs) panic = panic
  both (err e) r = err e
  both panic r = panic

  data_elements : Vmi → String → List ElasticsearchNode → Result (List Pvc)
  unfolding sized_elements both
  data_elements vmo class_name [] = ok []
  data_elements vmo class_name (node ∷ nodes) =
      both (sized_elements vmo node.storage "es-data" class_name)
        (data_elements vmo class_name nodes)

  -- `pvcs.New`
  unfoldable pub new_pvcs : Vmi → String → Result (List Pvc)
  unfolding data_elements sized_elements both data_nodes
  new_pvcs vmo class_name =
      both
        (if vmo.spec.opensearch.enabled
          then data_elements vmo class_name (data_nodes vmo)
          else ok [])
        (if vmo.spec.grafana.enabled
          then sized_elements vmo (some vmo.spec.grafana.storage) "grafana" class_name
          else ok [])

has_condition : List (String × String) → Bool
has_condition [] = false
has_condition ((type, status) ∷ conditions) =
    (type =ₜ "Ready" && status =ₜ "True") || has_condition conditions

has_effect : List String → Bool
has_effect [] = false
has_effect (effect ∷ taints) = effect =ₜ "NoSchedule" || has_effect taints

unfoldable pub is_schedulable : KubeNode → Bool
unfolding has_condition has_effect
is_schedulable node = has_condition node.conditions && not (has_effect node.taints)

add_ad : List String → Option String → List String
unfolding any
add_ad ads none = ads
add_ad ads (some ad) = if any ads (λ a. a =ₜ ad) then ads else ads ++ ad ∷ []

ads_of : List String → List KubeNode → List String
unfolding add_ad lookup
ads_of ads [] = ads
ads_of ads (node ∷ nodes) =
    ads_of (add_ad ads (lookup "failure-domain.beta.kubernetes.io/zone" node.labels)) nodes

unfoldable pub get_schedulable_ads : Client (List String)
unfolding ads_of is_schedulable select ask
get_schedulable_ads = do
  reply ← ask list_nodes
  pure (ads_of [] (select is_schedulable reply.kube_nodes))

random_failed : Result Reply → Client ℕ
random_failed (ok reply) = pure reply.number
random_failed (err e) = crash
random_failed panic = crash

-- the number is below the length: it is brought there, where the server of the model does not
unfoldable pub choose_random_element_from_slice : List String → Client String
unfolding random_failed ask
choose_random_element_from_slice [] = pure ""
choose_random_element_from_slice (x ∷ xs) = do
  drawn ← attempt (ask (random (length (x ∷ xs))))
  n ← random_failed drawn
  pure (get_or (x ∷ xs) (n % length (x ∷ xs)) x)

-- `NewAdPvcCounter`, whose counts are `int`
unfoldable pub new_ad_pvc_counter : List String → Dict ℕ
unfolding insert
new_ad_pvc_counter [] = []
new_ad_pvc_counter (ad ∷ ads) = insert ad 0 (new_ad_pvc_counter ads)

increment : String → Option ℕ → Dict ℕ → Dict ℕ
unfolding insert
increment ad none counter = counter
increment ad (some n) counter = insert ad (n + 1) counter

unfoldable pub inc : Dict ℕ → String → Dict ℕ
unfolding increment lookup
inc counter ad = increment ad (lookup ad counter) counter

-- the smallest of the counts, the first after `sort.Ints`
least : ℕ → Dict ℕ → ℕ
least n [] = n
least n ((ad, count) ∷ counter) = least (if ltb count n then count else n) counter

-- `adsByPvcCount[count]`
ads_with : ℕ → Dict ℕ → List String
ads_with n [] = []
ads_with n ((ad, count) ∷ counter) =
    let rest = ads_with n counter in if count == n then ad ∷ rest else rest

unfoldable pub get_least_used_ad : Dict ℕ → Client String
unfolding least ads_with choose_random_element_from_slice
get_least_used_ad [] = pure ""
get_least_used_ad ((ad, count) ∷ counter) =
    choose_random_element_from_slice (ads_with (least count counter) ((ad, count) ∷ counter))
