-- ===== src/Prelude/Io/Trace.antt =====
-- Which calls a function makes, whatever the server answers: one rule for each way to build it.
use verrazzano_monitoring_op.Prelude.{
  ◌≡◌, refl, sym, ap, ◌∙◌, Bool, true, false, List, [], ◌∷◌, ◌++◌, append_assoc, append-nil,
  if◌then◌else◌, All, All-append,
}
use verrazzano_monitoring_op.Prelude.Io.{
  Error, Result, ok, err, panic, Io, pure, raise, crash, lift, attempt, call, continue, ◌>>=◌,
}

-- Every call that `m` makes meets `P`.
pub record Only {ℓ} {C R A : Type ℓ} (P : C → Type ℓ) (m : Io C R A) : Type ℓ where
  pub calls : (List C → C → R) → List C → List C
  pub trace : (env : List C → C → R) (tr : List C) → (m env tr).1 ≡ tr ++ calls env tr
  pub meet : (env : List C → C → R) (tr : List C) → All P (calls env tr)

module _ {ℓ} {C R A : Type ℓ} {P : C → Type ℓ} where
  silent : (m : Io C R A) → ((env : List C → C → R) (tr : List C) → (m env tr).1 ≡ tr) → Only P m
  silent m h = record {
    calls = λ env tr. [];
    trace = λ env tr. h env tr ∙ sym (append-nil tr);
    meet = λ env tr. tt;
  }

  pub Only-pure : (a : A) → Only P (pure {C = C} {R = R} a)
  Only-pure a = silent (pure a) (λ env tr. refl)

  pub Only-raise : (e : Error) → Only P (raise {C = C} {R = R} {A = A} e)
  Only-raise e = silent (raise e) (λ env tr. refl)

  pub Only-crash : Only P (crash {C = C} {R = R} {A = A})
  Only-crash = silent crash (λ env tr. refl)

  pub Only-lift : (r : Result A) → Only P (lift {C = C} {R = R} r)
  Only-lift r = silent (lift r) (λ env tr. refl)

  pub Only-if :
      (b : Bool) (m n : Io C R A)
      → (b ≡ true → Only P m)
      → (b ≡ false → Only P n)
      → Only P (if b then m else n)
  Only-if true m n km kn = km refl
  Only-if false m n km kn = kn refl

  pub Only-attempt : (m : Io C R A) → Only P m → Only P (attempt m)
  Only-attempt m o = record { calls = o.calls; trace = o.trace; meet = o.meet }

module _ {ℓ} {C R : Type ℓ} {P : C → Type ℓ} where
  pub Only-call : (c : C) → P c → Only P (call {R = R} c)
  Only-call c h = record {
    calls = λ env tr. c ∷ [];
    trace = λ env tr. refl;
    meet = λ env tr. (h, tt);
  }

module _ {ℓ} {C R A B : Type ℓ} {P : C → Type ℓ} where
  further :
      (f : A → Io C R B) → ((a : A) → Only P (f a)) → (List C → C → R) → Result A → List C → List C
  further f kf env (ok a) tr = (kf a).calls env tr
  further f kf env (err e) tr = []
  further f kf env panic tr = []

  further-trace :
      (f : A → Io C R B) (kf : (a : A) → Only P (f a)) (env : List C → C → R) (r : Result A)
      (tr : List C)
      → (continue f env r tr).1 ≡ tr ++ further f kf env r tr
  unfolding further
  further-trace f kf env (ok a) tr = (kf a).trace env tr
  further-trace f kf env (err e) tr = sym (append-nil tr)
  further-trace f kf env panic tr = sym (append-nil tr)

  further-meet :
      (f : A → Io C R B) (kf : (a : A) → Only P (f a)) (env : List C → C → R) (r : Result A)
      (tr : List C)
      → All P (further f kf env r tr)
  unfolding further
  further-meet f kf env (ok a) tr = (kf a).meet env tr
  further-meet f kf env (err e) tr = tt
  further-meet f kf env panic tr = tt

  pub Only-bind :
      (m : Io C R A) (f : A → Io C R B) → Only P m → ((a : A) → Only P (f a)) → Only P (m >>= f)
  Only-bind m f km kf = record {
    calls = λ env tr. km.calls env tr ++ further f kf env (m env tr).0 (m env tr).1;
    trace = λ env tr.
        further-trace f kf env (m env tr).0 (m env tr).1
        ∙ ap (λ (t : List C). t ++ further f kf env (m env tr).0 (m env tr).1) (km.trace env tr)
        ∙ append_assoc tr _ _;
    meet = λ env tr.
        All-append P (km.calls env tr) _ (km.meet env tr)
          (further-meet f kf env (m env tr).0 (m env tr).1);
  }

-- A condition that is weaker.
pub Only-weaken {ℓ} :
    {C R A : Type ℓ} {P Q : C → Type ℓ} (m : Io C R A) → ((c : C) → P c → Q c) → Only P m → Only Q m
Only-weaken {C} {P = P} {Q = Q} m h o = record {
  calls = o.calls;
  trace = o.trace;
  meet = λ env tr. go (o.calls env tr) (o.meet env tr);
}
  where
    go : (cs : List C) → All P cs → All Q cs
    go [] k = tt
    go (c ∷ cs) (k, ks) = (h c k, go cs ks)

pub ruleset only_rules =
    (Only-pure, Only-raise, Only-crash, Only-lift, Only-if, Only-attempt, Only-call, Only-bind)
