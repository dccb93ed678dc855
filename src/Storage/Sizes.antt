-- ===== src/Storage/Sizes.antt =====
-- How many names a storage element ends up with, and which of the old ones it keeps.
use verrazzano_monitoring_op.Prelude.{
  ◌+◌, ℕ, zero, suc, ◌-◌, ◌≤◌, ◌<◌, ◌≡◌, refl, sym, ap, ◌∙◌, String, true, false, some, List, [],
  ◌∷◌, ◌++◌, append_assoc, append-nil, arith, ltb, ◌=ₜ◌, if◌then◌else◌, length, take, length-append,
  length-take, Bool-cases, inl, inr,
}
use verrazzano_monitoring_op.Prelude.Int.{pos, negsuc, ltb_ℤ}
use verrazzano_monitoring_op.Prelude.Io.Fallible.{◌>>=◌}
use verrazzano_monitoring_op.Prelude.Io.{ok, panic}
use verrazzano_monitoring_op.Names.{get_next_string_in_sequence, last_token}
use verrazzano_monitoring_op.Vmi.{Storage}
use verrazzano_monitoring_op.Storage.{
  extend, drop_last, trim, pvc_names_for, fill, resize_names, init_storage_element,
}

-- the `n` names behind a name
abbrev pub following : ℕ → String → List String
following zero name = []
following (suc n) name = let next = get_next_string_in_sequence name in next ∷ following n next

pub extend-following :
    (n : ℕ) (name : String) (names : List String) → extend n name names ≡ names ++ following n name
unfolding extend
extend-following zero name names = sym (append-nil names)
extend-following (suc n) name names = extend-following n _ _ ∙ append_assoc names _ _

pub length-following : (n : ℕ) (name : String) → length (following n name) ≡ n
length-following zero name = refl
length-following (suc n) name = ap suc (length-following n _)

length-drop_last : (xs : List String) (n : ℕ) → length xs ≡ suc n → length (drop_last xs) ≡ n
unfolding drop_last
length-drop_last [] n h = absurd (omega arith)
length-drop_last (x ∷ []) n h = omega arith
length-drop_last (x ∷ y ∷ ys) zero h = absurd (omega arith)
length-drop_last (x ∷ y ∷ ys) (suc n) h = ap suc (length-drop_last (y ∷ ys) n (omega arith))

take-drop_last : (r : ℕ) (xs : List String) → r < length xs → take r (drop_last xs) ≡ take r xs
unfolding drop_last
take-drop_last zero xs h = refl
take-drop_last (suc r) [] h = elim h [ ]
take-drop_last (suc r) (x ∷ []) h = absurd (omega arith)
take-drop_last (suc r) (x ∷ y ∷ ys) h =
    ap (λ (l : List String). x ∷ l) (take-drop_last r (y ∷ ys) (omega arith))

pub take_all : (xs : List String) (r : ℕ) → length xs ≡ r → take r xs ≡ xs
take_all [] r h = rw (sym h) refl
take_all (x ∷ xs) zero h = absurd (omega arith)
take_all (x ∷ xs) (suc r) h = ap (λ (l : List String). x ∷ l) (take_all xs r (omega arith))

-- enough rounds are given, and the names that stay are the first ones
trim-take :
    (n r : ℕ) (xs : List String) → length xs ≡ n → r ≤ n → trim n (pos r) xs ≡ ok (take r xs)
unfolding trim
trim-take zero zero [] e h = refl
trim-take zero r (x ∷ xs) e h = absurd (omega arith)
trim-take zero (suc r) [] e h = absurd (omega arith)
trim-take (suc n) r xs e h = elim (Bool-cases (ltb_ℤ (pos r) (pos (length xs)))) [
  | inl b ↦ rw b (
      trim-take n r (drop_last xs) (length-drop_last xs n e) (ground arith)
      ∙ ap ok (take-drop_last r xs (ground arith)))
  | inr b ↦ rw b (ap ok (sym (take_all xs r (ground arith))))
]

-- the names that a storage element gets: those that it has, cut or continued to `r` names
unfoldable pub names_for : ℕ → String → List String → List String
names_for r pvc_name [] = take r (pvc_name ∷ following (r - 1) pvc_name)
names_for r pvc_name (n ∷ ns) =
    if ltb (length (n ∷ ns)) r
    then (n ∷ ns) ++ following (r - length (n ∷ ns)) (last_token (n ∷ ns))
    else take r (n ∷ ns)

pub length-names_for :
    (r : ℕ) (pvc_name : String) (names : List String) → length (names_for r pvc_name names) ≡ r
unfolding names_for
length-names_for zero pvc_name [] = refl
length-names_for (suc r) pvc_name [] =
    length-take (suc r) (pvc_name ∷ following (suc r - 1) pvc_name)
      (omega (arith, length-following (suc r - 1) pvc_name))
length-names_for r pvc_name (n ∷ ns) = elim (Bool-cases (ltb (length (n ∷ ns)) r)) [
  | inl b ↦ rw b (
      ground (
        arith,
        length-append (n ∷ ns) (following (r - length (n ∷ ns)) (last_token (n ∷ ns))),
        length-following (r - length (n ∷ ns)) (last_token (n ∷ ns)),
      ))
  | inr b ↦ rw b (length-take r (n ∷ ns) (ground arith))
]

trim_all : (r : ℕ) (xs : List String) → length xs ≡ r → trim (length xs) (pos r) xs ≡ ok xs
trim_all r xs e = trim-take (length xs) r xs refl (omega (arith, e)) ∙ ap ok (take_all xs r e)

-- both loops together: continue the names, or cut them
trim-fill :
    (r : ℕ) (xs : List String)
    → trim (length (fill r xs)) (pos r) (fill r xs)
      ≡ ok
          (if ltb (length xs) r then xs ++ following (r - length xs) (last_token xs) else take r xs)
unfolding fill
trim-fill r xs = elim (Bool-cases (ltb (length xs) r)) [
  | inl b ↦
      rw (b, extend-following)
        (trim_all r _ (
          ground (
            arith,
            length-append xs (following (r - length xs) (last_token xs)),
            length-following (r - length xs) (last_token xs),
          )))
  | inr b ↦ rw b (trim-take (length xs) r xs refl (ground arith))
]

fresh_enough : (r : ℕ) (name : String) → ltb (length (name ∷ following (r - 1) name)) r ≡ false
fresh_enough r name = ground (arith, length-following (r - 1) name)

resize-names_for :
    (r : ℕ) (pvc_name : String) (names : List String)
    → resize_names (pos r) pvc_name names ≡ ok (names_for r pvc_name names)
unfolding resize_names names_for
resize-names_for r pvc_name [] =
    ap (λ (xs : List String). trim (length (fill r xs)) (pos r) (fill r xs))
      (extend-following (r - 1) pvc_name (pvc_name ∷ []))
    ∙ trim-fill r (pvc_name ∷ following (r - 1) pvc_name)
    ∙ rw fresh_enough refl
resize-names_for r pvc_name (n ∷ ns) = trim-fill r (n ∷ ns)

-- no names: the base name and those behind it
pub names_for_nil :
    (r : ℕ) (pvc_name : String) → names_for (r + 1) pvc_name [] ≡ pvc_name ∷ following r pvc_name
unfolding names_for
names_for_nil r pvc_name =
    take_all (pvc_name ∷ following (r + 1 - 1) pvc_name) (r + 1)
      (omega (arith, length-following (r + 1 - 1) pvc_name))
    ∙ ap (λ (k : ℕ). pvc_name ∷ following k pvc_name) (omega arith)

-- A storage element with a size, of a node group whose number of replicas is not negative, gets
-- the names that `names_for` describes, as many as there are replicas; nothing else of it changes.
pub init_storage_element-names_for :
    (s : Storage) (r : ℕ) (pvc_name : String)
    → (s.size =ₜ "") ≡ false
    → (init_storage_element (some s) (pos r) pvc_name
        ≡ ok (some (record s { pvc_names = names_for r pvc_name s.pvc_names })))
      × (length (names_for r pvc_name s.pvc_names) ≡ r)
unfolding init_storage_element
init_storage_element-names_for s r pvc_name h =
    (rw (h, resize-names_for) refl, length-names_for r pvc_name s.pvc_names)

-- names of the right number are left alone
names_for_id :
    (r : ℕ) (pvc_name : String) (names : List String)
    → length names ≡ r
    → names_for r pvc_name names ≡ names
unfolding names_for
names_for_id r pvc_name [] e = rw (← e) refl
names_for_id r pvc_name (n ∷ ns) e = rw (not_below, take_all (n ∷ ns) r e) refl
  where
    not_below : ltb (length (n ∷ ns)) r ≡ false
    not_below = ground arith

-- A second reconciliation with the same number of replicas leaves a storage element with a size alone.
pub init_storage_element_idem :
    (s : Storage) (r : ℕ) (pvc_name : String)
    → (s.size =ₜ "") ≡ false
    → (init_storage_element (some s) (pos r) pvc_name >>= λ s'.
        init_storage_element s' (pos r) pvc_name)
      ≡ init_storage_element (some s) (pos r) pvc_name
init_storage_element_idem s r pvc_name h =
    let (e, l) = init_storage_element-names_for s r pvc_name h in
    let s' : Storage = record s { pvc_names = names_for r pvc_name s.pvc_names } in
    rw e (
      (init_storage_element-names_for s' r pvc_name h).0
      ∙ ap (λ (ns : List String). ok (some (record s { pvc_names = ns })))
          (names_for_id r pvc_name _ l))

trim_panics : (n k : ℕ) (xs : List String) → length xs ≡ n → trim n (negsuc k) xs ≡ panic
unfolding trim
trim_panics zero k xs e = ground arith
trim_panics (suc n) k xs e = rw positive (trim_panics n k (drop_last xs) (length-drop_last xs n e))
  where
    positive : ltb_ℤ (negsuc k) (pos (length xs)) ≡ true
    positive = ground arith

-- For a storage element with a size, a negative number of replicas ends in a panic, whatever names
-- there are.
pub init_storage_element_panics :
    (s : Storage) (k : ℕ) (pvc_name : String)
    → (s.size =ₜ "") ≡ false
    → init_storage_element (some s) (negsuc k) pvc_name ≡ panic
unfolding init_storage_element resize_names
init_storage_element_panics s k pvc_name h =
    rw (h, trim_panics _ k (fill 0 (pvc_names_for 0 pvc_name s.pvc_names)) refl) refl
