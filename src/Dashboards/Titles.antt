-- ===== src/Dashboards/Titles.antt =====
-- What `updatePatternsInternal` of pkg/opensearch_dashboards/opensearch_dashboards_upgrade.go makes of
-- the titles.
use verrazzano_monitoring_op.Prelude.{
  ℕ, ◌+◌, ◌≤◌, String, ◌≡◌, ◌≢◌, inl, inr, false, ◌&&◌, ◌||◌, List, [], ◌∷◌, arith, eq_iff, ◌=ₜ◌,
  if◌then◌else◌, Bool-cases, any,
}
use text.Mathlib.TextLemmas.{append_cancel_left, append_cancel_right}
use verrazzano_monitoring_op.Prelude.Io.{◌>>=◌}
use verrazzano_monitoring_op.Prelude.Io.Cost.{
  AtMost, AtMost-pure, AtMost-raise, AtMost-if, AtMost-bind, AtMost-bind_free, AtMost-weaken,
}
use verrazzano_monitoring_op.Server.{Config, Client, Call, http}
use verrazzano_monitoring_op.Server.Costs.{AtMost-ask, AtMost-check_error}
use verrazzano_monitoring_op.SavedObject.{SavedObject}
use verrazzano_monitoring_op.Migration.{wrapped}
use verrazzano_monitoring_op.Migration.Kept.{AtMost-wrapped}
use verrazzano_monitoring_op.Dashboards.{
  object_url, create_index_pattern_payload, execute_update, delete_index_pattern, update_object,
  update_objects,
}

-- a request that gives an object the title
abbrev pub sets_title : String → Call → ℕ
sets_title title (http method url body) =
    if method =ₜ "PUT" && body =ₜ create_index_pattern_payload title then 1 else 0
sets_title title c = 0

not_same : (s t : String) → s ≢ t → (s =ₜ t) ≡ false
not_same s t h = elim (Bool-cases (s =ₜ t)) [ inl e ↦ absurd (h ((eq_iff s t).0 e)) | inr e ↦ e ]

same_payload :
    (a b : String) → create_index_pattern_payload a ≡ create_index_pattern_payload b → a ≡ b
unfolding create_index_pattern_payload
same_payload a b e =
    append_cancel_right a b "\"}}" (append_cancel_left "{\"attributes\":{\"title\":\"" _ _ e)

differ :
    (updated_pattern title : String)
    → (updated_pattern =ₜ title) ≡ false
    → create_index_pattern_payload updated_pattern ≢ create_index_pattern_payload title
differ updated_pattern title e q =
    let same = (eq_iff updated_pattern title).1 (same_payload _ _ q) in cc

-- how often the title may still be given to an object
abbrev pub left_for : String → List String → ℕ
left_for title titles = if any titles (λ t. t =ₜ title) then 0 else 1

module _ (config : Config) (endpoint title : String) where
  AtMost-deleted :
      (id : String) → AtMost (sets_title title) 0 (delete_index_pattern config endpoint id)
  unfolding delete_index_pattern
  AtMost-deleted id =
      AtMost-bind_free 0 _ _
        (AtMost-check_error (config.new_request_error (object_url endpoint id)))
        (λ u.
          AtMost-bind_free 0 _ _
            (AtMost-wrapped _ _
              (AtMost-ask 0 (http "DELETE" (object_url endpoint id) "") (omega arith)))
            (λ reply. AtMost-if 0 _ _ _ (AtMost-raise 0 _) (AtMost-pure 0 tt)))

  AtMost-updated :
      (n : ℕ) (id updated_pattern : String)
      → (if create_index_pattern_payload updated_pattern =ₜ create_index_pattern_payload title
          then 1
          else 0)
        ≤ n
      → AtMost (sets_title title) n (execute_update config endpoint id updated_pattern)
  unfolding execute_update
  AtMost-updated n id updated_pattern h =
      AtMost-bind_free n _ _
        (AtMost-check_error (config.new_request_error (object_url endpoint id)))
        (λ u. AtMost-weaken (n + 0) n _ (omega arith) (
          AtMost-bind n 0 _ _
            (AtMost-wrapped _ _ (
              AtMost-ask n
                (http "PUT" (object_url endpoint id) (create_index_pattern_payload updated_pattern))
                h))
            (λ reply. AtMost-if 0 _ _ _ (AtMost-raise 0 _) (AtMost-pure 0 tt))))

  -- the update of an object, and what follows it
  AtMost-put :
      (titles : List String) (id updated_pattern : String) (again : Client (Unit {0}))
      → any titles (λ t. t =ₜ updated_pattern) ≡ false
      → AtMost (sets_title title) (left_for title (updated_pattern ∷ titles)) again
      → AtMost (sets_title title) (left_for title titles) (
          wrapped "failed to updated index pattern"
            (execute_update config endpoint id updated_pattern)
          >>= λ u. again)
  unfolding any
  AtMost-put titles id updated_pattern again free h = elim (Bool-cases (updated_pattern =ₜ title)) [
    | inl e ↦
        let same = (eq_iff updated_pattern title).0 e in
        rw (rw same at free) (
          AtMost-bind 1 0 _ _
            (AtMost-wrapped _ _ (AtMost-updated 1 id updated_pattern (ground arith)))
            (λ u. rw e at h))
    | inr e ↦
        AtMost-bind_free _ _ _
          (AtMost-wrapped _ _ (
            AtMost-updated 0 id updated_pattern
              (rw (not_same _ _ (differ updated_pattern title e)) (omega arith))))
          (λ u. rw e at h)
  ]

  AtMost-object :
      (titles : List String) (object : SavedObject) (updated_pattern : String)
      (again : List String → Client (Unit {0}))
      → ((titles' : List String)
          → AtMost (sets_title title) (left_for title titles') (again titles'))
      → AtMost
          (sets_title title)
          (left_for title titles)
          (update_object config endpoint titles object updated_pattern again)
  unfolding update_object
  AtMost-object titles object updated_pattern again h =
      elim (Bool-cases (updated_pattern =ₜ "" || object.title =ₜ updated_pattern)) [
        | inl e ↦ rw e (h titles)
        | inr e ↦ rw e (elim (Bool-cases (any titles (λ t. t =ₜ updated_pattern))) [
          | inl d ↦ rw d (
              AtMost-bind_free _ _ _ (AtMost-wrapped _ _ (AtMost-deleted object.id))
                (λ u. h titles))
          | inr d ↦ rw d (
              AtMost-put titles object.id updated_pattern (again (updated_pattern ∷ titles)) d
                (h (updated_pattern ∷ titles)))
        ])
      ]

  -- Whatever Dashboards answers, the loop over the objects sends a given title in at most one request
  -- that updates an object, and in none if the map of the titles has this title at the start.
  pub titles_stay_unique :
      (construct : String → String) (titles : List String) (objects : List SavedObject)
      → AtMost
          (sets_title title)
          (left_for title titles)
          (update_objects construct config endpoint titles objects)
  unfolding update_objects
  titles_stay_unique construct titles [] = AtMost-pure _ tt
  titles_stay_unique construct titles (object ∷ objects) =
      AtMost-object titles object (construct object.title) _
        (λ titles'. titles_stay_unique construct titles' objects)
