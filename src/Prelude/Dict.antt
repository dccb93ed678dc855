-- ===== src/Prelude/Dict.antt =====
-- Go's maps with string keys, as association lists. The order of the entries is the order in which
-- a loop over the map meets them.
use verrazzano_monitoring_op.Prelude.{
  String, ◌≡◌, refl, Option, none, some, Bool, true, false, List, [], ◌∷◌, arith, ◌=ₜ◌, eq_iff,
  if◌then◌else◌,
}

abbrev pub Dict {ℓ} : Type ℓ → Type ℓ
Dict V = List (String × V)

module _ {ℓ} {V : Type ℓ} where
  unfoldable pub lookup : String → Dict V → Option V
  lookup key [] = none
  lookup key ((name, value) ∷ entries) = if name =ₜ key then some value else lookup key entries

  -- `m[key] = new`
  unfoldable pub insert : String → V → Dict V → Dict V
  insert key new [] = (key, new) ∷ []
  insert key new ((name, value) ∷ entries) =
      if name =ₜ key then (key, new) ∷ entries else (name, value) ∷ insert key new entries

  abbrev pub is_there : Option V → Bool
  is_there none = false
  is_there (some v) = true

  -- `_, ok := m[key]`
  unfoldable pub has_key : String → Dict V → Bool
  unfolding lookup
  has_key key entries = is_there (lookup key entries)

  pub lookup-insert :
      (other key : String) (new : V) (entries : Dict V)
      → lookup key (insert other new entries)
        ≡ (if other =ₜ key then some new else lookup key entries)
  unfolding lookup insert
  lookup-insert other key new [] = refl
  lookup-insert other key new ((name, value) ∷ rest) = ground (
    arith,
    lookup-insert other key new rest,
    eq_iff name other,
    eq_iff name key,
    eq_iff other key,
  )
