-- ===== src/PvcUpdate/Cleanup.antt =====
-- Which claims `cleanupUnusedPVCs` of pkg/vmo/pvc_update.go deletes.
use verrazzano_monitoring_op.Prelude.{
  ◌⊎◌, ℕ, ◌≤◌, String, ◌≡◌, inl, inr, false, List, [], ◌∷◌, ◌++◌, Memᴰ, arith, eq_iff, ◌=ₜ◌,
  if◌then◌else◌, Bool-cases, Option-cases, All, any, select, any_of_mem,
}
use verrazzano_monitoring_op.Prelude.Io.{◌>>=◌}
use verrazzano_monitoring_op.Prelude.Io.Cost.{
  AtMost, AtMost-pure, AtMost-bind_free, total, total-append,
}
use verrazzano_monitoring_op.Kube.{Pvc}
use verrazzano_monitoring_op.Pvc.{get_meta_labels}
use verrazzano_monitoring_op.Server.{Call, list_deployments, list_pvcs, delete_pvc, Reply, ask}
use verrazzano_monitoring_op.Server.Costs.{AtMost-ask}
use verrazzano_monitoring_op.Vmi.{Vmi}
use verrazzano_monitoring_op.Claims.InUse.{Mounted, Named, get_in_use_pvc_names_mem}
use verrazzano_monitoring_op.PvcUpdate.{get_unbound_pvcs, delete_pvcs, cleanup_unused_pvcs}

-- a deletion of the claim `name`
abbrev pub deletes_claim : String → Call → ℕ
deletes_claim name (delete_pvc ns n) = if n =ₜ name then 1 else 0
deletes_claim name c = 0

unbound_lem :
    (pvcs : List Pvc) (in_use : List String) (name : String)
    → Memᴰ name in_use
    → All (λ (p : Pvc). (p.name =ₜ name) ≡ false) (get_unbound_pvcs pvcs in_use)
unfolding get_unbound_pvcs select
unbound_lem [] in_use name m = tt
unbound_lem (p ∷ pvcs) in_use name m = elim (Bool-cases (any in_use (λ n. n =ₜ p.name))) [
  | inl e ↦ rw e (unbound_lem pvcs in_use name m)
  | inr e ↦ rw e (
    elim (Bool-cases (p.name =ₜ name)) [
      | inl q ↦ cc (
          any_of_mem in_use (λ n. n =ₜ p.name) m
            (ground (arith, eq_iff p.name name, eq_iff name p.name)))
      | inr q ↦ q
    ],
    unbound_lem pvcs in_use name m,
  )
]

delete_pvcs_spares :
    (name : String) (pvcs : List Pvc)
    → All (λ (p : Pvc). (p.name =ₜ name) ≡ false) pvcs
    → AtMost (deletes_claim name) 0 (delete_pvcs pvcs)
unfolding delete_pvcs
delete_pvcs_spares name [] h = AtMost-pure 0 tt
delete_pvcs_spares name (p ∷ pvcs) (e, h) =
    AtMost-bind_free 0 _ _ (AtMost-ask 0 (delete_pvc p.namespace p.name) (rw e (omega arith)))
      (λ r. delete_pvcs_spares name pvcs h)

then_delete :
    (vmo : Vmi) (in_use : List String) (name : String)
    → Memᴰ name in_use
    → AtMost (deletes_claim name) 0 (
        ask (list_pvcs vmo.namespace (get_meta_labels vmo)) >>= λ all_pvcs.
        delete_pvcs (get_unbound_pvcs all_pvcs.pvcs in_use))
then_delete vmo in_use name m =
    AtMost-bind_free 0 _ _ (AtMost-ask 0 _ (omega arith))
      (λ all_pvcs. delete_pvcs_spares name _ (unbound_lem all_pvcs.pvcs in_use name m))

-- A claim is not deleted if a deployment mounts it, of those that the API server lists at the start,
-- or if the instance's data node or a data node group of its list names it in its storage, whatever
-- else the server answers.
pub cleanup_spares_in_use :
    (vmo : Vmi) (name : String) (env : List Call → Call → Reply) (tr : List Call)
    → Mounted (env tr (list_deployments vmo.namespace (get_meta_labels vmo))).deployments name
      ⊎ Named vmo name
    → total (deletes_claim name) (cleanup_unused_pvcs vmo env tr).1 ≤ total (deletes_claim name) tr
unfolding cleanup_unused_pvcs ask
cleanup_spares_in_use vmo name env tr used =
    let c = list_deployments vmo.namespace (get_meta_labels vmo) in
    let longer = total-append (deletes_claim name) tr (c ∷ []) in
    let m = get_in_use_pvc_names_mem (env tr c).deployments vmo name used in
    elim (Option-cases (env tr c).error) [
      | inr (t, e) ↦ rw e (omega (arith, longer))
      | inl e ↦ rw e (omega (arith, longer, (then_delete vmo _ name m).bound env (tr ++ c ∷ [])))
    ]
