-- ===== src/Examples/Rollouts.antt =====
-- Deployments of data nodes.
use verrazzano_monitoring_op.Prelude.{◌≤◌, String, ◌≡◌, refl, true, [], ◌∷◌}
use verrazzano_monitoring_op.Prelude.Io.Cost.{AtMost, total}
use verrazzano_monitoring_op.Kube.{Deployment}
use verrazzano_monitoring_op.Deployments.{rolling_update, delete_unexpected, needs_green}
use verrazzano_monitoring_op.Deployments.Removals.{
  updates, removals, rolling_update_once, delete_waits_for_green,
}
use verrazzano_monitoring_op.Examples.Inputs.{cluster, settings, server, data_deployment, differ}

abbrev differs : Deployment → Deployment → String
differs a b = "changed"

rolling_update_once_example :
    AtMost updates 1
      (rolling_update differs settings cluster (data_deployment 0 ∷ data_deployment 1 ∷ []))
rolling_update_once_example =
    rolling_update_once differs settings cluster (data_deployment 0 ∷ data_deployment 1 ∷ [])

needed : needs_green cluster 0 (data_deployment 1) ≡ true
unfolding needs_green
needed = refl

delete_waits_for_green_example :
    total removals
      (delete_unexpected settings cluster [] 0 (data_deployment 1) (server "yellow") []).1
    ≤ total removals []
delete_waits_for_green_example =
    delete_waits_for_green settings cluster [] 0 (data_deployment 1) (server "yellow") [] needed
      refl (λ g. differ "yellow" "green" refl g.health)
