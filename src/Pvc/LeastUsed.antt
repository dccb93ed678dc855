-- ===== src/Pvc/LeastUsed.antt =====
-- The availability domain that has the fewest claims: `GetLeastUsedAd` of pkg/vmo/pvc.go.
use verrazzano_monitoring_op.Prelude.{
  ==_iff, ℕ, zero, suc, ◌%◌, ◌≤◌, ◌<◌, String, ◌≡◌, refl, ◌≢◌, ◌⊎◌, inl, inr, List, [], ◌∷◌, Memᴰ,
  arith, ltb, ◌==◌, if◌then◌else◌, Bool-cases, Option-cases, length, get_or, All,
}
use verrazzano_monitoring_op.Prelude.Io.{Result, ok}
use mathlib.Core.List.Memᴰ
use verrazzano_monitoring_op.Prelude.Dict.{Dict}
use verrazzano_monitoring_op.Server.{Call, Reply, random}
use verrazzano_monitoring_op.Pvc.{
  least, ads_with, choose_random_element_from_slice, get_least_used_ad,
}

-- some domain has the least count
least_there :
    (n : ℕ) (counter : Dict ℕ) → (least n counter ≡ n) ⊎ (ads_with (least n counter) counter ≢ [])
unfolding least ads_with
least_there n [] = inl refl
least_there n ((ad, count) ∷ counter) =
    let ih = least_there (if ltb count n then count else n) counter in
    ground (arith, ==_iff count (least (if ltb count n then count else n) counter))

least-le :
    (n : ℕ) (counter : Dict ℕ)
    → (least n counter ≤ n) × All (λ (e : String × ℕ). least n counter ≤ e.1) counter
unfolding least
least-le n [] = (omega arith, tt)
least-le n ((ad, count) ∷ counter) =
    let (low, rest) = least-le (if ltb count n then count else n) counter in
    (ground arith, (ground arith, rest))

ads_with-mem :
    (n : ℕ) (counter : Dict ℕ) {ad : String} → Memᴰ ad (ads_with n counter) → Memᴰ (ad, n) counter
unfolding ads_with
ads_with-mem n [] m = elim m [ ]
ads_with-mem n ((a, count) ∷ counter) {ad} m = elim (Bool-cases (count == n)) [
  | inl e ↦ elim (Memᴰ.cases_cons (rw e at m)) [
    | inl q ↦ Memᴰ.head (ground (arith, ==_iff count n))
    | inr t ↦ Memᴰ.tail (ads_with-mem n counter t)
  ]
  | inr e ↦ Memᴰ.tail (ads_with-mem n counter (rw e at m))
]

-- some item of the list is found
found : (x : String) (xs : List String) (i : ℕ) → i < length xs → Memᴰ (get_or xs i x) xs
found x [] i h = absurd (omega arith)
found x (y ∷ ys) zero h = Memᴰ.head refl
found x (y ∷ ys) (suc i) h = Memᴰ.tail (found x ys i (omega arith))

below : (n k : ℕ) → n % suc k < suc k
below n k = grind arith

ok_inj : {a b : String} → Result.ok a ≡ ok b → a ≡ b
ok_inj h = cc

chosen :
    (x : String) (xs : List String) (env : List Call → Call → Reply) (tr : List Call) {ad : String}
    → (choose_random_element_from_slice (x ∷ xs) env tr).0 ≡ ok ad
    → Memᴰ ad (x ∷ xs)
unfolding choose_random_element_from_slice
chosen x xs env tr h = elim (Option-cases (env tr (random (length (x ∷ xs)))).error) [
  | inr (t, e) ↦ cc (rw e at h)
  | inl e ↦ rw (← ok_inj (rw e at h)) (found x (x ∷ xs) _ (below _ _))
]

chosen_of :
    (xs : List String) (env : List Call → Call → Reply) (tr : List Call) {ad : String}
    → xs ≢ []
    → (choose_random_element_from_slice xs env tr).0 ≡ ok ad
    → Memᴰ ad xs
chosen_of [] env tr ne h = absurd (ne refl)
chosen_of (x ∷ xs) env tr ne h = chosen x xs env tr h

some_least :
    (ad : String) (count : ℕ) (counter : Dict ℕ)
    → ads_with (least count counter) ((ad, count) ∷ counter) ≢ []
unfolding ads_with
some_least ad count counter =
    let there = least_there count counter in ground (arith, ==_iff count (least count counter))

-- Where the counter has a domain, the one that is chosen is one of the counter's, and none of these
-- has fewer claims.
pub get_least_used_ad_lem :
    (counter : Dict ℕ) (env : List Call → Call → Reply) (tr : List Call) {ad : String}
    → counter ≢ []
    → (get_least_used_ad counter env tr).0 ≡ ok ad
    → (n : ℕ) × Memᴰ (ad, n) counter × All (λ (e : String × ℕ). n ≤ e.1) counter
unfolding get_least_used_ad
get_least_used_ad_lem [] env tr ne h = absurd (ne refl)
get_least_used_ad_lem ((a, count) ∷ counter) env tr ne h =
    let m = least count counter in
    let ads = ads_with m ((a, count) ∷ counter) in
    let there =
      ads_with-mem m ((a, count) ∷ counter) (chosen_of ads env tr (some_least a count counter) h) in
    let (low, rest) = least-le count counter in (m, there, (low, rest))
