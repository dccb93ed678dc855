-- ===== src/StatefulSets/Green.antt =====
-- The health check in front of the update of a stateful set: `updateStatefulSet` of
-- pkg/vmo/statefulset.go and `IsGreen` of pkg/opensearch/opensearch.go.
use verrazzano_monitoring_op.Prelude.{
  ◌≤◌, String, ◌<>◌, ◌≡◌, refl, ◌≢◌, true, false, not, none, List, arith, eq_iff, ◌=ₜ◌,
  if◌then◌else◌,
}
use verrazzano_monitoring_op.Prelude.Io.{Result, ok, err, panic, raise, continue}
use verrazzano_monitoring_op.Server.{Client, Config, Call, http, Reply, ask, request, request_json}
use verrazzano_monitoring_op.Health.{
  opensearch_health, is_green, get_open_search_cluster_health, get_open_search_http_endpoint,
}
use verrazzano_monitoring_op.Kube.{StatefulSet}
use verrazzano_monitoring_op.Plan.{StatefulSetPlan}
use verrazzano_monitoring_op.Prelude.Io.Cost.{total}
use verrazzano_monitoring_op.StatefulSets.{update_one}
use verrazzano_monitoring_op.StatefulSets.Costs.{changes, changes-Harmless}
use verrazzano_monitoring_op.Health.Costs.{AtMost-is_green}
use verrazzano_monitoring_op.Health.{is_green, opensearch_health, get_open_search_cluster_health}
use verrazzano_monitoring_op.Vmi.{Vmi}

-- the request for the health of the cluster
abbrev pub health_call : Config → Vmi → Call
health_call config vmo =
    http "GET" (get_open_search_http_endpoint config vmo <> "/_cluster/health") ""

-- the answer says that the cluster is green
pub record SaysGreen (reply : Reply) : Type 0 where
  pub error : reply.error ≡ none
  pub status : reply.status ≡ 200
  pub decoded : reply.decode_error ≡ none
  pub health : reply.health ≡ "green"

cluster_health_ok :
    (config : Config) (vmo : Vmi) (env : List Call → Call → Reply) (tr : List Call)
    {status : String}
    → (get_open_search_cluster_health config vmo env tr).0 ≡ ok status
    → status ≡ "green"
    → SaysGreen (env tr (health_call config vmo))
unfolding get_open_search_cluster_health request_json request ask
cluster_health_ok config vmo env tr h green = ground arith

-- what goes on only if the status is green
green_status :
    (f : String → Client (Unit {0})) (env : List Call → Call → Reply) (r : Result String)
    (tr : List Call)
    → (continue
        (λ status.
          if not (status =ₜ "green") then raise "OpenSearch health is not green" else f status)
        env
        r
        tr).0
      ≡ ok tt
    → r ≡ ok "green"
green_status f env (ok status) tr h = ground (arith, eq_iff status "green")
green_status f env (err e) tr h = cc
green_status f env panic tr h = cc

-- a check that passes has seen such an answer
pub is_green_ok :
    (config : Config) (vmo : Vmi) (env : List Call → Call → Reply) (tr : List Call)
    → vmo.spec.opensearch.enabled ≡ true
    → (is_green config vmo env tr).0 ≡ ok tt
    → SaysGreen (env tr (health_call config vmo))
unfolding is_green opensearch_health
is_green_ok config vmo env tr on h =
    cluster_health_ok config vmo env tr
      (green_status _ env (get_open_search_cluster_health config vmo env tr).0 _ (rw on at h)) refl

-- what follows a failed check is not run
stop :
    (config : Config) (vmo : Vmi) (sts : StatefulSet) (plan : StatefulSetPlan)
    (env : List Call → Call → Reply) (tr : List Call)
    → plan.bounce_nodes ≡ false
    → plan.existing_cluster ≡ true
    → (is_green config vmo env tr).0 ≢ ok tt
    → ((update_one config vmo sts plan env tr).0 ≢ ok tt)
      × ((update_one config vmo sts plan env tr).1 ≡ (is_green config vmo env tr).1)
unfolding update_one
stop config vmo sts plan env tr b r h = rw (b, r) (ground arith)

-- Where the cluster runs more than one node and OpenSearch is enabled, a stateful set is not
-- updated unless the answer to the request for the cluster's health is a success, can be decoded and
-- says green: otherwise the update fails, and no call that it has made changes or removes a set or
-- a pod.
pub update_waits_for_green :
    (config : Config) (vmo : Vmi) (sts : StatefulSet) (plan : StatefulSetPlan)
    (env : List Call → Call → Reply) (tr : List Call)
    → plan.bounce_nodes ≡ false
    → plan.existing_cluster ≡ true
    → vmo.spec.opensearch.enabled ≡ true
    → (SaysGreen (env tr (health_call config vmo)) → ⊥)
    → ((update_one config vmo sts plan env tr).0 ≢ ok tt)
      × (total changes (update_one config vmo sts plan env tr).1 ≤ total changes tr)
update_waits_for_green config vmo sts plan env tr b r on not_green =
    let (failed, quiet) =
      stop config vmo sts plan env tr b r (λ h. not_green (is_green_ok config vmo env tr on h)) in
    (
      failed,
      rw quiet (
          omega (
            arith,
            (AtMost-is_green {weight = changes} changes-Harmless.asking config vmo).bound env tr,
          )),
    )
