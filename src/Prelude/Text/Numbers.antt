-- ===== src/Prelude/Text/Numbers.antt =====
-- `strconv.Atoi` undoes `strconv.Itoa`.
use Prim.Native.Char.{Char, code}
use mathlib.Core.Path.{subst}
use text.Mathlib.TextLemmas.{nil-append, cons-append}
use verrazzano_monitoring_op.Prelude.{
  ◌≢◌, ◌-◌, ◌&&◌, leb, ℕ, zero, suc, ◌+◌, ◌*◌, ◌/◌, ◌%◌, ◌<◌, ◌≤◌, String, ◌<>◌, ◌≡◌, ◌∙◌, refl,
  true, some, arith, ltb, Bool-cases, inl, inr,
}
use verrazzano_monitoring_op.Prelude.Int.{pos}
use verrazzano_monitoring_op.Prelude.Text.Parts.{Lacks}
use verrazzano_monitoring_op.Prelude.Text.{
  parse_uint, scan_digits, scan_nonempty, emit, digit, digits, atoi, within, positive,
}

-- a written digit is one character
digit_char : (d : ℕ) → d < 10 → (c : Char) × (digit d ≡ String.◌∷◌ c "") × (code c ≡ 48 + d)
digit_char zero h = ("0", refl, refl)
digit_char (suc zero) h = ("1", refl, refl)
digit_char (suc (suc zero)) h = ("2", refl, refl)
digit_char (suc (suc (suc zero))) h = ("3", refl, refl)
digit_char (suc (suc (suc (suc zero)))) h = ("4", refl, refl)
digit_char (suc (suc (suc (suc (suc zero))))) h = ("5", refl, refl)
digit_char (suc (suc (suc (suc (suc (suc zero)))))) h = ("6", refl, refl)
digit_char (suc (suc (suc (suc (suc (suc (suc zero))))))) h = ("7", refl, refl)
digit_char (suc (suc (suc (suc (suc (suc (suc (suc zero)))))))) h = ("8", refl, refl)
digit_char (suc (suc (suc (suc (suc (suc (suc (suc (suc zero))))))))) h = ("9", refl, refl)
digit_char (suc (suc (suc (suc (suc (suc (suc (suc (suc (suc d)))))))))) h = absurd (omega arith)

scan-cons :
    (c : Char) (d n : ℕ) (s : String)
    → code c ≡ 48 + d
    → d < 10
    → scan_digits (String.◌∷◌ c s) n ≡ scan_digits s (n * 10 + d)
unfolding scan_digits
scan-cons c d n s e h = rw (e, is_digit, offset) refl
  where
    is_digit : (leb 48 (48 + d) && leb (48 + d) 57) ≡ true
    is_digit = ground arith

    offset : 48 + d - 48 ≡ d
    offset = omega arith

scan-digit :
    (d n : ℕ) (s : String) → d < 10 → scan_digits (digit d <> s) n ≡ scan_digits s (n * 10 + d)
scan-digit d n s h =
    let (c, e, k) = digit_char d h in rw (e, cons-append, nil-append) (scan-cons c d n s k h)

-- Reading the written digits of `n` and then a rest is reading the rest behind `n`.
scan-emit :
    (fuel n : ℕ) (out : String) → n < fuel → scan_digits (emit fuel n out) 0 ≡ scan_digits out n
unfolding emit
scan-emit zero n out h = elim h [ ]
scan-emit (suc fuel) n out h = elim (Bool-cases (ltb n 10)) [
  | inl e ↦ rw (e, scan-digit (n % 10) 0 out (omega arith), last_digit n e) refl
  | inr e ↦
      rw
        (
          e,
          scan-emit fuel (n / 10) (digit (n % 10) <> out) (ground arith),
          scan-digit (n % 10) (n / 10) out (omega arith),
          split_digit n,
        )
        refl
]
  where
    last_digit : (k : ℕ) → ltb k 10 ≡ true → 0 * 10 + k % 10 ≡ k
    last_digit k e = ground arith

    split_digit : (k : ℕ) → k / 10 * 10 + k % 10 ≡ k
    split_digit k = omega arith

-- the text begins with a decimal digit
abbrev StartsWithDigit : String → Type 0
StartsWithDigit String.[] = ⊥
StartsWithDigit (String.◌∷◌ c s) = (48 ≤ code c) × (code c ≤ 57)

digit-StartsWithDigit : (d : ℕ) (out : String) → d < 10 → StartsWithDigit (digit d <> out)
digit-StartsWithDigit d out h =
    let (c, e, k) = digit_char d h in rw (e, cons-append) (omega (arith, k))

emit-StartsWithDigit : (fuel n : ℕ) (out : String) → n < fuel → StartsWithDigit (emit fuel n out)
unfolding emit
emit-StartsWithDigit zero n out h = elim h [ ]
emit-StartsWithDigit (suc fuel) n out h = elim (Bool-cases (ltb n 10)) [
  | inl e ↦ rw e (digit-StartsWithDigit (n % 10) out (omega arith))
  | inr e ↦ rw e (emit-StartsWithDigit fuel (n / 10) _ (ground arith))
]

atoi_of_digit :
    (s : String)
    → StartsWithDigit s
    → atoi s ≡ positive (within 9223372036854775808 (scan_digits s 0))
unfolding atoi scan_nonempty
atoi_of_digit String.[] h = absurd h
atoi_of_digit (String.◌∷◌ c s) h = ground arith

-- `Atoi` reads back what `Itoa` wrote.
pub atoi-digits : (n : ℕ) → n < 9223372036854775808 → atoi (digits n) ≡ some (pos n)
unfolding digits
atoi-digits n h =
    atoi_of_digit _ (emit-StartsWithDigit (suc n) n "" (omega arith))
    ∙ rw (scan-emit (suc n) n "" (omega arith)) (unfold scan_digits in ground arith)

digit-Lacks :
    (d : ℕ) (out : String) (sep : Char)
    → d < 10
    → code sep < 48
    → Lacks sep out
    → Lacks sep (digit d <> out)
digit-Lacks d out sep h k l =
    let (c, e, q) = digit_char d h in rw (e, cons-append, nil-append) (ground (arith, q), l)

emit-Lacks :
    (fuel n : ℕ) (out : String) (sep : Char)
    → code sep < 48
    → Lacks sep out
    → Lacks sep (emit fuel n out)
unfolding emit
emit-Lacks zero n out sep k l = l
emit-Lacks (suc fuel) n out sep k l = elim (Bool-cases (ltb n 10)) [
  | inl e ↦ rw e (digit-Lacks (n % 10) out sep (omega arith) k l)
  | inr e ↦ rw e (emit-Lacks fuel (n / 10) _ sep k (digit-Lacks (n % 10) out sep (omega arith) k l))
]

-- A written count holds no separator that sorts below the digits, such as `-`.
pub digits-Lacks : (n : ℕ) (sep : Char) → code sep < 48 → Lacks sep (digits n)
unfolding digits
digits-Lacks n sep k = emit-Lacks (suc n) n "" sep k tt

starts_nonempty : (s : String) → StartsWithDigit s → scan_nonempty s ≡ scan_digits s 0
unfolding scan_nonempty
starts_nonempty String.[] h = absurd h
starts_nonempty (String.◌∷◌ c s) h = refl

starts_some : (s : String) → StartsWithDigit s → s ≢ ""
starts_some s h e = subst StartsWithDigit e h

pub digits_some : (n : ℕ) → digits n ≢ ""
unfolding digits
digits_some n = starts_some _ (emit-StartsWithDigit (suc n) n "" (omega arith))

-- `ParseUint` reads back what `Itoa` wrote.
pub parse_uint-digits : (n : ℕ) → n < 18446744073709551616 → parse_uint (digits n) ≡ some n
unfolding digits parse_uint
parse_uint-digits n h =
    rw
      (
        starts_nonempty _ (emit-StartsWithDigit (suc n) n "" (omega arith)),
        scan-emit (suc n) n "" (omega arith),
      )
      (unfold scan_digits in ground arith)
