-- ===== src/Retention/Seconds.antt =====
-- `calculateSeconds` of pkg/opensearch/opensearch_upgrade.go.
use verrazzano_monitoring_op.Prelude.{
  ◌^◌, ℕ, zero, suc, ◌*◌, ◌%◌, ◌<◌, String, ◌<>◌, ◌≡◌, refl, ◌∙◌, ◌≢◌, some, arith, ltb,
  if◌then◌else◌,
}
use verrazzano_monitoring_op.Prelude.Io.{ok, err}
use Prim.Native.Char.{Char}
use text.Mathlib.TextLemmas.{nil-append, cons-append}
use verrazzano_monitoring_op.Prelude.Text.{digits, parse_uint}
use verrazzano_monitoring_op.Prelude.Text.Numbers.{parse_uint-digits, digits_some}
use verrazzano_monitoring_op.Retention.{cut_last, seconds_of, unit_multiplier, calculate_seconds}

cut_last-append :
    (c : Char) (s : String) (unit : Char)
    → cut_last c (s <> String.◌∷◌ unit "") ≡ (String.◌∷◌ c s, unit)
unfolding cut_last
cut_last-append c String.[] unit = rw nil-append refl
cut_last-append c (String.◌∷◌ d s) unit = rw (cons-append, cut_last-append d s unit) refl

cut :
    (s : String) (unit : Char)
    → s ≢ ""
    → calculate_seconds (s <> String.◌∷◌ unit "") ≡ seconds_of (parse_uint s) unit
unfolding calculate_seconds
cut String.[] unit h = absurd (h refl)
cut (String.◌∷◌ c s) unit h = rw (cons-append, cut_last-append c s unit) refl

keep : (p : ℕ) → p < 18446744073709551616 → p % 2 ^ 64 ≡ p
keep p fits = omega arith

product_positive : (n m : ℕ) → 0 < n → 0 < m → 0 < n * m
product_positive zero m h k = elim h [ ]
product_positive (suc n) zero h k = elim k [ ]
product_positive (suc n) (suc m) h k = omega arith

small :
    (p : ℕ)
    → 0 < p
    → p < 18446744073709551616
    → (if ltb (p % 2 ^ 64) 1
        then err "conversion to seconds for time unit is unsupported"
        else ok (p % 2 ^ 64))
      ≡ ok p
small p positive fits = rw (keep p fits) (ground arith)

bounded : (n m : ℕ) → 0 < m → n * m < 18446744073709551616 → n < 18446744073709551616
bounded n (suc m) known fits = grind arith
bounded n zero known fits = absurd (omega arith)

converted :
    (number : ℕ) (unit : Char)
    → 0 < number
    → 0 < unit_multiplier unit
    → number * unit_multiplier unit < 18446744073709551616
    → seconds_of (some number) unit ≡ ok (number * unit_multiplier unit)
unfolding seconds_of
converted number unit positive known fits =
    small (number * unit_multiplier unit)
      (product_positive number (unit_multiplier unit) positive known) fits

-- the units of an age, and their seconds
pub data Means : Char → ℕ → Type 0 where
  seconds : Means "s" 1
  minutes : Means "m" 60
  hours : Means "h" 3600
  days : Means "d" 86400

multiplier : (unit : Char) (m : ℕ) → Means unit m → (unit_multiplier unit ≡ m) × (0 < m)
unfolding unit_multiplier
multiplier unit m Means.seconds = (refl, omega arith)
multiplier unit m Means.minutes = (refl, omega arith)
multiplier unit m Means.hours = (refl, omega arith)
multiplier unit m Means.days = (refl, omega arith)

-- A positive number with the unit s, m, h or d behind it is converted to so many times 1, 60, 3600 or
-- 86400 seconds, where these fit 64 bits.
pub calculate_seconds_lem :
    (number : ℕ) (unit : Char) (m : ℕ)
    → Means unit m
    → 0 < number
    → number * m < 18446744073709551616
    → calculate_seconds (digits number <> String.◌∷◌ unit "") ≡ ok (number * m)
calculate_seconds_lem number unit m means positive fits =
    let (e, known) = multiplier unit m means in
    cut (digits number) unit (digits_some number)
    ∙ rw (parse_uint-digits number (bounded number m known fits))
        (converted number unit positive (rw e known) (rw e fits) ∙ rw e refl)
