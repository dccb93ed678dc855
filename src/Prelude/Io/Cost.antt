-- ===== src/Prelude/Io/Cost.antt =====
-- How many calls of a kind a function makes at most, whatever the server answers.
use verrazzano_monitoring_op.Prelude.{
  ℕ, ◌+◌, ◌≤◌, ◌≡◌, Bool, true, false, List, [], ◌∷◌, ◌++◌, arith, if◌then◌else◌,
}
use verrazzano_monitoring_op.Prelude.Io.{
  Error, Result, ok, err, panic, Io, pure, raise, lift, attempt, call, continue, ◌>>=◌,
}

module _ {ℓ} {C : Type ℓ} where
  abbrev pub total : (C → ℕ) → List C → ℕ
  total weight [] = 0
  total weight (c ∷ cs) = weight c + total weight cs

  pub total-append :
      (weight : C → ℕ) (cs ds : List C)
      → total weight (cs ++ ds) ≡ total weight cs + total weight ds
  total-append weight [] ds = omega arith
  total-append weight (c ∷ cs) ds = omega (arith, total-append weight cs ds)

-- The calls that `m` makes weigh at most `n`.
pub record AtMost {ℓ} {C R A : Type ℓ} (weight : C → ℕ) (n : ℕ) (m : Io C R A) : Type ℓ where
  pub bound : (env : List C → C → R) (tr : List C) → total weight (m env tr).1 ≤ total weight tr + n

module _ {ℓ} {C R A : Type ℓ} {weight : C → ℕ} where
  pub AtMost-pure : (n : ℕ) (a : A) → AtMost weight n (pure {C = C} {R = R} a)
  AtMost-pure n a = record { bound = λ env tr. omega arith }

  pub AtMost-raise : (n : ℕ) (e : Error) → AtMost weight n (raise {C = C} {R = R} {A = A} e)
  AtMost-raise n e = record { bound = λ env tr. omega arith }

  pub AtMost-lift : (n : ℕ) (r : Result A) → AtMost weight n (lift {C = C} {R = R} r)
  AtMost-lift n r = record { bound = λ env tr. omega arith }

  pub AtMost-if :
      (n : ℕ) (b : Bool) (m k : Io C R A)
      → AtMost weight n m
      → AtMost weight n k
      → AtMost weight n (if b then m else k)
  AtMost-if n true m k hm hk = hm
  AtMost-if n false m k hm hk = hk

  pub AtMost-attempt : (n : ℕ) (m : Io C R A) → AtMost weight n m → AtMost weight n (attempt m)
  AtMost-attempt n m h = record { bound = h.bound }

  pub AtMost-weaken : (n k : ℕ) (m : Io C R A) → n ≤ k → AtMost weight n m → AtMost weight k m
  AtMost-weaken n k m le h = record { bound = λ env tr. omega (arith, h.bound env tr) }

module _ {ℓ} {C R : Type ℓ} {weight : C → ℕ} where
  pub AtMost-call : (n : ℕ) (c : C) → weight c ≤ n → AtMost weight n (call {R = R} c)
  AtMost-call n c h = record { bound = λ env tr. omega (arith, total-append weight tr (c ∷ [])) }

module _ {ℓ} {C R A B : Type ℓ} {weight : C → ℕ} where
  continue_bound :
      (k : ℕ) (f : A → Io C R B)
      → ((a : A) → AtMost weight k (f a))
      → (env : List C → C → R) (r : Result A) (tr : List C)
      → total weight (continue f env r tr).1 ≤ total weight tr + k
  continue_bound k f h env (ok a) tr = (h a).bound env tr
  continue_bound k f h env (err e) tr = omega arith
  continue_bound k f h env panic tr = omega arith

  pub AtMost-bind :
      (n k : ℕ) (m : Io C R A) (f : A → Io C R B)
      → AtMost weight n m
      → ((a : A) → AtMost weight k (f a))
      → AtMost weight (n + k) (m >>= f)
  AtMost-bind n k m f hm hf = record {
    bound = λ env tr.
        omega (arith, hm.bound env tr, continue_bound k f hf env (m env tr).0 (m env tr).1);
  }

  -- a first part that makes none of these calls
  pub AtMost-bind_free :
      (n : ℕ) (m : Io C R A) (f : A → Io C R B)
      → AtMost weight 0 m
      → ((a : A) → AtMost weight n (f a))
      → AtMost weight n (m >>= f)
  AtMost-bind_free n m f hm hf = record {
    bound = λ env tr.
        omega (arith, hm.bound env tr, continue_bound n f hf env (m env tr).0 (m env tr).1);
  }

pub ruleset free_rules =
    (AtMost-pure, AtMost-raise, AtMost-lift, AtMost-if, AtMost-attempt, AtMost-bind_free)
