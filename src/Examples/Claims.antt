-- ===== src/Examples/Claims.antt =====
-- Persistent volume claims.
use verrazzano_monitoring_op.Prelude.{
  inl, inr, String, map, ◌=ₜ◌, if◌then◌else◌, ℕ, ◌≤◌, String, ◌≡◌, refl, [], ◌∷◌, ◌++◌, Memᴰ, All,
}
use verrazzano_monitoring_op.Prelude.Io.{ok}
use verrazzano_monitoring_op.Prelude.Dict.{Dict}
use verrazzano_monitoring_op.Prelude.Io.Cost.{total}
use verrazzano_monitoring_op.Claims.{get_in_use_pvc_names, deployment_claims, node_claims}
use verrazzano_monitoring_op.Nodes.{data_nodes}
use verrazzano_monitoring_op.Pvc.{get_least_used_ad}
use verrazzano_monitoring_op.Pvc.LeastUsed.{get_least_used_ad_lem}
use verrazzano_monitoring_op.PvcUpdate.{cleanup_unused_pvcs}
use verrazzano_monitoring_op.PvcUpdate.Cleanup.{deletes_claim, cleanup_spares_in_use}
use verrazzano_monitoring_op.Claims.InUse.{Named}
use verrazzano_monitoring_op.VmoStorage.{update_vmo_storage_for_pvc}
use verrazzano_monitoring_op.VmoStorage.Renamed.{update_vmo_storage_lem}
use verrazzano_monitoring_op.Examples.Inputs.{claimed, server}

named : Named claimed "vmi-system-es-data"
named = (claimed.spec.opensearch.data_node, inl refl, (_, refl, Memᴰ.head refl))

cleanup_spares_in_use_example :
    total (deletes_claim "vmi-system-es-data") (cleanup_unused_pvcs claimed (server "") []).1
    ≤ total (deletes_claim "vmi-system-es-data") []
cleanup_spares_in_use_example =
    cleanup_spares_in_use claimed "vmi-system-es-data" (server "") [] (inr named)

-- the other claim is deleted
deletes_old :
    total (deletes_claim "vmi-system-old") (cleanup_unused_pvcs claimed (server "") []).1 ≡ 1
unfolding cleanup_unused_pvcs
deletes_old = refl

update_vmo_storage_lem_example :
    get_in_use_pvc_names []
      (update_vmo_storage_for_pvc claimed "vmi-system-es-data" "vmi-system-es-data-abcde")
    ≡ deployment_claims []
      ++ map
          (λ (n : String). if n =ₜ "vmi-system-es-data" then "vmi-system-es-data-abcde" else n)
          (node_claims (data_nodes claimed))
update_vmo_storage_lem_example =
    update_vmo_storage_lem claimed "vmi-system-es-data" "vmi-system-es-data-abcde" []

abbrev counts : Dict ℕ
counts = ("AD1", 2) ∷ ("AD2", 1) ∷ ("AD3", 1) ∷ []

picked : (get_least_used_ad counts (server "") []).0 ≡ ok "AD2"
unfolding get_least_used_ad
picked = refl

get_least_used_ad_lem_example :
    (n : ℕ) × Memᴰ ("AD2", n) counts × All (λ (e : String × ℕ). n ≤ e.1) counts
get_least_used_ad_lem_example = get_least_used_ad_lem counts (server "") [] (λ e. cc e) picked
