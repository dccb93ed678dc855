-- ===== src/Storage.antt =====
-- The storage elements of a node group: `initStorageElement` of pkg/vmo/vmospec.go.
-- A nil slice and an empty one are the same list. `replicas` is an `int`.
pub mod Sizes
pub mod Fresh
use verrazzano_monitoring_op.Prelude.{
  ℕ, zero, suc, ◌-◌, String, Bool, true, false, Option, none, some, List, [], ◌∷◌, ◌++◌, ltb, ◌=ₜ◌,
  if◌then◌else◌, length,
}
use verrazzano_monitoring_op.Prelude.Int.{ℤ, pos, ltb_ℤ, pos_part}
use verrazzano_monitoring_op.Prelude.Io.{Result, ok, panic}
use verrazzano_monitoring_op.Prelude.Io.Fallible.{◌>>=◌}
use verrazzano_monitoring_op.Names.{get_next_string_in_sequence, last_token}
use verrazzano_monitoring_op.Vmi.{Storage}

-- the two loops that append `n` further names of the sequence behind `name`
pub extend : ℕ → String → List String → List String
extend zero name names = names
extend (suc n) name names =
    let next = get_next_string_in_sequence name in extend n next (names ++ next ∷ [])

-- `s[:len(s)-1]` of a slice that is not empty
drop_last : List String → List String
drop_last [] = []
drop_last (x ∷ []) = []
drop_last (x ∷ y ∷ ys) = x ∷ drop_last (y ∷ ys)

-- The loop that removes the extras, on as many rounds as there are names. At no names and a
-- negative number of replicas the slice expression panics.
trim : ℕ → ℤ → List String → Result (List String)
unfolding drop_last
trim zero replicas names = if ltb_ℤ replicas (pos 0) then panic else ok names
trim (suc rounds) replicas names =
    let rest = trim rounds replicas (drop_last names) in
    if ltb_ℤ replicas (pos (length names)) then rest else ok names

-- the names of a storage element that has a size
pvc_names_for : ℕ → String → List String → List String
unfolding extend
pvc_names_for replicas pvc_name [] = extend (replicas - 1) pvc_name (pvc_name ∷ [])
pvc_names_for replicas pvc_name (n ∷ ns) = n ∷ ns

-- the second loop: as many new names as are missing
fill : ℕ → List String → List String
unfolding extend
fill replicas names =
    if ltb (length names) replicas
    then extend (replicas - length names) (last_token names) names
    else names

resize_names : ℤ → String → List String → Result (List String)
unfolding pvc_names_for fill trim
resize_names replicas pvc_name names =
    let names' = fill (pos_part replicas) (pvc_names_for (pos_part replicas) pvc_name names) in
    trim (length names') replicas names'

unfoldable pub init_storage_element : Option Storage → ℤ → String → Result (Option Storage)
unfolding resize_names
init_storage_element none replicas pvc_name = ok none
init_storage_element (some s) replicas pvc_name = if s.size =ₜ "" then ok (some s) else (do
  names ← resize_names replicas pvc_name s.pvc_names
  ok (some (record s { pvc_names = names })))
