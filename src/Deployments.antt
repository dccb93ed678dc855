-- ===== src/Deployments.antt =====
-- pkg/vmo/deployment.go. `new_list` is `deployments.New`, which gives the expected deployments and
-- how many of them run data nodes, `dashboards_of` is `NewOpenSearchDashboardsDeployment`, and
-- `diff` is `diff.Diff`. Metrics and log calls are left out.
pub mod Removals
use verrazzano_monitoring_op.Prelude.{
  ℕ, zero, suc, ◌+◌, ◌-◌, ◌*◌, ◌/◌, ◌%◌, ◌≤◌, ◌<◌, String, ◌<>◌, ◌≡◌, refl, sym, ap, ◌∙◌, ◌≢◌, ◌↔◌,
  ◌⊎◌, inl, inr, Bool, true, false, not, ◌&&◌, ◌||◌, Option, none, some, List, [], ◌∷◌, ◌++◌, map,
  Memᴰ, append_assoc, append-nil, arith, eq_iff, ltb, leb, ◌==◌, ◌=ₜ◌, if◌then◌else◌, Bool-cases,
  Option-cases, length, get_elem?, get_or, take, All, any, all, select, any_of_mem, any_witness,
  mem_of_mem-select, mem-select,
}
use verrazzano_monitoring_op.Prelude.Int.{
  ℤ, pos, negsuc, pos_part, neg_part, sub_ℕ, ◌+ℤ◌, ltb_ℤ, leb_ℤ, eqb_ℤ, quot, add32, add64, wrap64,
  wrap32,
}
use verrazzano_monitoring_op.Prelude.Io.{
  Error, Result, ok, err, panic, Io, pure, raise, crash, lift, settle, attempt, call, continue,
  ◌>>=◌, ◌>>◌,
}
use verrazzano_monitoring_op.Prelude.Dict.{lookup}
use verrazzano_monitoring_op.Kube.{Deployment}
use verrazzano_monitoring_op.Health.{is_green, is_updated}
use verrazzano_monitoring_op.Server.{
  Config, Client, Call, get_deployment, create_deployment, update_deployment, delete_deployment,
  list_deployments, Reply, ask,
}
use verrazzano_monitoring_op.Vmi.{Vmi}

label_is : Option String → String → Bool
label_is none s = s =ₜ ""
label_is (some t) s = t =ₜ s

unfoldable pub is_open_search_data_deployment : String → Deployment → Bool
unfolding label_is lookup
is_open_search_data_deployment vmo_name d =
    label_is (lookup "app" d.template_labels) (vmo_name <> "-es-data")

passed : Result (Unit {0}) → Client Bool
passed (ok u) = pure true
passed (err e) = pure false
passed panic = crash

unfoldable pub is_update_allowed : Config → Vmi → Deployment → Client Bool
unfolding is_open_search_data_deployment passed is_green
is_update_allowed config vmo current =
    if is_open_search_data_deployment vmo.namespace current
    then if eqb_ℤ current.ready_replicas (pos 0)
      then pure true
      else (do r ← attempt (is_green config vmo); passed r)
    else pure true

abbrev is_last : List Deployment → Bool
is_last [] = true
is_last (x ∷ xs) = false

unfoldable pub update_all_deployments : Vmi → List Deployment → Client Bool
unfolding ask
update_all_deployments vmo [] = pure false
update_all_deployments vmo (cur ∷ list) = do
  ask (get_deployment vmo.namespace cur.name)
  ask (update_deployment vmo.namespace cur)
  update_all_deployments vmo list

unfoldable pub delete_one : Vmi → Deployment → Client (Unit {0})
unfolding ask
delete_one vmo d = ask (delete_deployment vmo.namespace d.name) >> pure tt

-- whether the health of the cluster has a say in the deletion
unfoldable pub needs_green : Vmi → ℕ → Deployment → Bool
unfolding is_open_search_data_deployment
needs_green vmo data_count d =
    is_open_search_data_deployment vmo.name d
    && (ltb 0 data_count || ltb_ℤ (pos 0) d.ready_replicas)

-- one round of the loop that deletes what should not exist
unfoldable pub delete_unexpected : Config → Vmi → List String → ℕ → Deployment → Client (Unit {0})
unfolding delete_one needs_green passed is_green any
delete_unexpected config vmo names data_count d =
    if any names (λ name. name =ₜ d.name)
    then pure tt
    else if needs_green vmo data_count d
    then (do
      r ← attempt (is_green config vmo)
      green ← passed r
      if green then delete_one vmo d else pure tt)
    else delete_one vmo d

unfoldable pub delete_all_unexpected :
    Config → Vmi → List String → ℕ → List Deployment → Client (Unit {0})
unfolding delete_unexpected
delete_all_unexpected config vmo names data_count [] = pure tt
delete_all_unexpected config vmo names data_count (d ∷ list) = do
  delete_unexpected config vmo names data_count d
  delete_all_unexpected config vmo names data_count list

module _ (diff : Deployment → Deployment → String) where
  unfoldable pub update_if_changed : Vmi → Deployment → Deployment → Client (Unit {0})
  unfolding ask
  update_if_changed vmo existing cur =
      let cur' : Deployment = record cur { selector = existing.selector } in
      if diff existing cur' =ₜ ""
      then pure tt
      else (ask (update_deployment vmo.namespace cur') >> pure tt)

  -- what `rollingUpdate` does with a deployment that may be updated
  update_next : Vmi → Deployment → Deployment → Bool → Client Bool → Client Bool
  unfolding ask
  update_next vmo existing current last rest =
      let current' : Deployment = record current { selector = existing.selector } in
      if not (diff existing current' =ₜ "")
      then (ask (update_deployment vmo.namespace current') >> pure (not last))
      else if not (eqb_ℤ existing.status_replicas (pos 1))
          || not (eqb_ℤ existing.status_replicas existing.available_replicas)
      then pure true
      else rest

  unfoldable pub rolling_update : Config → Vmi → List Deployment → Client Bool
  unfolding update_next is_update_allowed ask
  rolling_update config vmo [] = pure false
  rolling_update config vmo (current ∷ list) =
      let rest = rolling_update config vmo list in
      ask (get_deployment vmo.namespace current.name) >>= λ found.
      is_update_allowed config vmo current >>= λ allowed.
      if not allowed then rest else update_next vmo found.deployment current (is_last list) rest

  unfoldable pub update_open_search_deployments :
      Config → Vmi → List Deployment → Bool → Client Bool
  unfolding update_all_deployments rolling_update
  update_open_search_deployments config vmo list existing_cluster =
      if not existing_cluster
      then update_all_deployments vmo list
      else rolling_update config vmo list

  -- the deployment of Dashboards that exists: one more replica where the others are available
  scale_up : Config → Vmi → Deployment → Deployment → Client (Unit {0})
  unfolding is_updated update_if_changed add32
  scale_up config vmo osd existing = do
    is_updated config vmo
    let wanted = vmo.spec.opensearch_dashboards.replicas
    let ready =
        eqb_ℤ existing.available_replicas existing.replicas && ltb_ℤ existing.replicas wanted
    let osd' : Deployment =
        if ready then record osd { replicas = add32 existing.replicas (pos 1) } else osd
    update_if_changed vmo existing osd'
    if not (eqb_ℤ wanted existing.replicas)
        then raise "waiting to bring OS Dashboards replica up to full count"
        else pure tt

  create_or_scale : Config → Vmi → Deployment → Reply → Option Error → Client (Unit {0})
  unfolding scale_up ask
  create_or_scale config vmo osd reply none = scale_up config vmo osd reply.deployment
  create_or_scale config vmo osd reply (some e) =
      if reply.not_found
      then (ask (create_deployment vmo.namespace (record osd { replicas = pos 1 })) >> pure tt)
      else raise e

  unfoldable pub update_open_search_dashboards_deployment :
      Config → Vmi → Option Deployment → Client (Unit {0})
  unfolding create_or_scale is_green
  update_open_search_dashboards_deployment config vmo none = pure tt
  update_open_search_dashboards_deployment config vmo (some osd) = do
    is_green config vmo
    reply ← call (get_deployment vmo.namespace osd.name)
    create_or_scale config vmo osd reply reply.error

  -- one round of the first loop: the deployment, where its update is left to the rolling update
  apply_deployment : Vmi → Deployment → Reply → Option Error → Client (List Deployment)
  unfolding update_if_changed ask label_is lookup
  apply_deployment vmo cur reply (some e) =
      if reply.not_found then (ask (create_deployment vmo.namespace cur) >> pure []) else raise e
  apply_deployment vmo cur reply none =
      if label_is (lookup "app" reply.deployment.template_labels) (vmo.name <> "-es-data")
      then pure (cur ∷ [])
      else (update_if_changed vmo reply.deployment cur >> pure [])

  -- the first loop; `none` stands for the return at a deployment without a name
  apply_deployments :
      Vmi
      → List Deployment
      → List String
      → List Deployment
      → Client (Option (List String × List Deployment))
  unfolding apply_deployment
  apply_deployments vmo [] names open_search = pure (some (names, open_search))
  apply_deployments vmo (cur ∷ list) names open_search =
      if cur.name =ₜ "" && cur.generate_name =ₜ ""
      then pure none
      else (call (get_deployment vmo.namespace cur.name) >>= λ reply.
          apply_deployment vmo cur reply reply.error >>= λ left.
          apply_deployments vmo list (names ++ cur.name ∷ []) (open_search ++ left))

  name_of : Option Deployment → List String
  name_of none = []
  name_of (some d) = d.name ∷ []

  after_loop :
      Config
      → Vmi
      → Option Deployment
      → ℕ
      → Bool
      → Option (List String × List Deployment)
      → Client Bool
  unfolding update_open_search_deployments update_open_search_dashboards_deployment name_of
      delete_all_unexpected ask
  after_loop config vmo osd data_count existing_cluster none = pure true
  after_loop config vmo osd data_count existing_cluster (some (names, open_search)) = do
    dirty ← update_open_search_deployments config vmo open_search existing_cluster
    update_open_search_dashboards_deployment config vmo osd
    existing ← ask (list_deployments vmo.namespace (("vmo.v1.verrazzano.io", vmo.name) ∷ []))
    delete_all_unexpected config vmo (names ++ name_of osd) data_count existing.deployments
    pure dirty

  unfoldable pub create_deployments :
      (Vmi → Result (List Deployment × ℕ))
      → (Vmi → Option Deployment)
      → Config
      → Vmi
      → Bool
      → Client Bool
  unfolding apply_deployments after_loop
  create_deployments new_list dashboards_of config vmo existing_cluster = do
    expected ← lift (new_list vmo)
    applied ← apply_deployments vmo expected.0 [] []
    after_loop config vmo (dashboards_of vmo) expected.1 existing_cluster applied
