-- ===== src/Prelude/Io.antt =====
-- Go functions that may fail or panic, and those that call a server.
-- The server is not under the repository: it is a function `env` from the calls made so far and
-- the call at hand to the answer, over which every theorem ranges. The calls made are recorded,
-- oldest first, and stay recorded when the function fails.
pub mod Fallible
pub mod Trace
pub mod Cost
pub mod Ensures
use verrazzano_monitoring_op.Prelude.{◌≡◌, refl, String, List, [], ◌∷◌, ◌++◌}

-- An `error` is its text up to the arguments that it prints.
abbrev pub Error : Type 0
Error = String

-- `panic` is a run-time panic: an index out of range or a nil pointer.
pub data Result {ℓ} (A : Type ℓ) : Type ℓ where
  ok : A → Result A
  err : Error → Result A
  panic : Result A

abbrev pub Io {ℓ} : Type ℓ → Type ℓ → Type ℓ → Type ℓ
Io C R A = (List C → C → R) → List C → Result A × List C

-- the error is a value, a panic is not caught
abbrev pub settle {ℓ} : {A : Type ℓ} → Result A → Result (Result A)
settle (ok a) = ok (ok a)
settle (err e) = ok (err e)
settle panic = panic

module _ {ℓ} {C R A : Type ℓ} where
  abbrev pub pure : A → Io C R A
  pure a env trace = (ok a, trace)

  abbrev pub raise : Error → Io C R A
  raise e env trace = (err e, trace)

  abbrev pub crash : Io C R A
  crash env trace = (panic, trace)

  abbrev pub lift : Result A → Io C R A
  lift r env trace = (r, trace)

  -- `v, err := m` where the code goes on to look at `err`
  abbrev pub attempt : Io C R A → Io C R (Result A)
  attempt m env trace = (settle (m env trace).0, (m env trace).1)

module _ {ℓ} {C R : Type ℓ} where
  abbrev pub call : C → Io C R R
  call c env trace = (ok (env trace c), trace ++ c ∷ [])

module _ {ℓ} {C R A B : Type ℓ} where
  abbrev pub continue : (A → Io C R B) → (List C → C → R) → Result A → List C → Result B × List C
  continue f env (ok a) trace = f a env trace
  continue f env (err e) trace = (err e, trace)
  continue f env panic trace = (panic, trace)

  infixl 10 ◌>>=◌ ◌>>◌
  abbrev pub ◌>>=◌ : Io C R A → (A → Io C R B) → Io C R B
  ◌>>=◌ m f env trace = continue f env (m env trace).0 (m env trace).1

  abbrev pub ◌>>◌ : Io C R A → Io C R B → Io C R B
  m >> n = m >>= λ _. n
