-- ===== src/Prelude/Io/Ensures.antt =====
-- What holds of a result where a function returns one, whatever the server answers.
use verrazzano_monitoring_op.Prelude.{◌≡◌, refl, ap, ◌≢◌, Bool, true, false, List, if◌then◌else◌}
use verrazzano_monitoring_op.Prelude.Io.{
  Error, Result, ok, err, panic, Io, pure, raise, crash, continue, ◌>>=◌,
}

pub record Ensures {ℓ} {C R A : Type ℓ} (P : A → Type ℓ) (m : Io C R A) : Type ℓ where
  pub holds : (env : List C → C → R) (tr : List C) (a : A) → (m env tr).0 ≡ ok a → P a

abbrev pub returned {ℓ} : {A : Type ℓ} → A → Result A → A
returned d (ok a) = a
returned d (err e) = d
returned d panic = d

pub ok-inj {ℓ} : {A : Type ℓ} (a b : A) → ok a ≡ ok b → a ≡ b
ok-inj a b e = ap (returned a) e

pub err-is_no-ok {ℓ} : {A : Type ℓ} (e : Error) (a : A) → err e ≢ ok a
err-is_no-ok e a q = cc

pub panic-is_no-ok {ℓ} : {A : Type ℓ} (a : A) → panic ≢ ok a
panic-is_no-ok a q = cc

module _ {ℓ} {C R A : Type ℓ} {P : A → Type ℓ} where
  pub Ensures-pure : (a : A) → P a → Ensures P (pure {C = C} {R = R} a)
  Ensures-pure a h = record { holds = λ env tr b e. rw (← ok-inj a b e) h }

  pub Ensures-raise : (e : Error) → Ensures P (raise {C = C} {R = R} e)
  Ensures-raise e = record { holds = λ env tr b q. absurd (err-is_no-ok e b q) }

  pub Ensures-crash : Ensures P (crash {C = C} {R = R})
  Ensures-crash = record { holds = λ env tr b q. absurd (panic-is_no-ok b q) }

  pub Ensures-if :
      (b : Bool) (m n : Io C R A)
      → (b ≡ true → Ensures P m)
      → (b ≡ false → Ensures P n)
      → Ensures P (if b then m else n)
  Ensures-if true m n hm hn = hm refl
  Ensures-if false m n hm hn = hn refl

module _ {ℓ} {C R A B : Type ℓ} {P : B → Type ℓ} where
  continued :
      (Q : A → Type ℓ) (f : A → Io C R B)
      → ((a : A) → Q a → Ensures P (f a))
      → (env : List C → C → R) (tr : List C) (r : Result A) → ((a : A) → r ≡ ok a → Q a)
      → (b : B) → (continue f env r tr).0 ≡ ok b
      → P b
  continued Q f h env tr (ok a) q b e = (h a (q a refl)).holds env tr b e
  continued Q f h env tr (err x) q b e = absurd (err-is_no-ok x b e)
  continued Q f h env tr panic q b e = absurd (panic-is_no-ok b e)

  pub Ensures-bind :
      (Q : A → Type ℓ) (m : Io C R A) (f : A → Io C R B)
      → Ensures Q m
      → ((a : A) → Q a → Ensures P (f a))
      → Ensures P (m >>= f)
  Ensures-bind Q m f hm h = record {
    holds = λ env tr b e.
        continued Q f h env (m env tr).1 (m env tr).0 (λ a q. hm.holds env tr a q) b e;
  }

  -- where nothing is known of the first result
  pub Ensures-then :
      (m : Io C R A) (f : A → Io C R B) → ((a : A) → Ensures P (f a)) → Ensures P (m >>= f)
  Ensures-then m f h = record {
    holds = λ env tr b e.
        continued (λ a. Unit {ℓ}) f (λ a u. h a) env (m env tr).1 (m env tr).0 (λ a q. tt) b e;
  }

module _ {ℓ} {C R A B : Type ℓ} where
  continue_ok :
      (f : A → Io C R B) (env : List C → C → R) (b : B) (r : Result A) (mid : List C)
      → (continue f env r mid).0 ≡ ok b
      → (a : A) × (r ≡ ok a) × ((f a env mid).0 ≡ ok b)
  continue_ok f env b (ok a) mid h = (a, refl, h)
  continue_ok f env b (err e) mid h = absurd (err-is_no-ok e b h)
  continue_ok f env b panic mid h = absurd (panic-is_no-ok b h)

  -- the two parts of a step that returns
  pub bind_ok :
      (m : Io C R A) (f : A → Io C R B) (env : List C → C → R) (tr : List C) (b : B)
      → ((m >>= f) env tr).0 ≡ ok b
      → (a : A) × ((m env tr).0 ≡ ok a) × ((f a env (m env tr).1).0 ≡ ok b)
  bind_ok m f env tr b h = continue_ok f env b (m env tr).0 (m env tr).1 h

module _ {ℓ} {C R A : Type ℓ} {P Q : A → Type ℓ} where
  pub Ensures-weaken : (m : Io C R A) → ((a : A) → P a → Q a) → Ensures P m → Ensures Q m
  Ensures-weaken m f h = record { holds = λ env tr a e. f a (h.holds env tr a e) }

module _ {C R A : Type 0} where
  -- where nothing is known of the result
  pub Ensures-any : (m : Io C R A) → Ensures (λ a. Unit) m
  Ensures-any m = record { holds = λ env tr a e. tt }
