-- ===== src/Prelude/Text.antt =====
-- Go's `strings` and `strconv` on the texts that the operator handles. An `int` has 64 bits.
pub mod Parts
pub mod Numbers
use Prim.Native.Char.{Char, code}
use text.Mathlib.Text.{starts_with, find?}
use verrazzano_monitoring_op.Prelude.{
  ℕ, zero, suc, ◌+◌, ◌-◌, ◌*◌, ◌/◌, ◌%◌, String, ◌<>◌, Bool, true, false, ◌&&◌, Option, none, some,
  List, [], ◌∷◌, leb, ltb, ◌==◌, if◌then◌else◌, get_or,
}
use verrazzano_monitoring_op.Prelude.Int.{ℤ, pos, negsuc}

-- `strings.HasPrefix`
abbrev pub has_prefix : String → String → Bool
has_prefix s p = starts_with s p

abbrev is_some {ℓ} : {A : Type ℓ} → Option A → Bool
is_some none = false
is_some (some a) = true

-- `strings.Contains`
abbrev pub contains : String → String → Bool
contains s t = is_some (find? s t)

-- a character in front of the first part
push : Char → List String → List String
push c [] = String.◌∷◌ c "" ∷ []
push c (p ∷ ps) = String.◌∷◌ c p ∷ ps

-- `strings.Split` at a separator of one character
unfoldable pub split : String → Char → List String
unfolding push
split String.[] sep = "" ∷ []
split (String.◌∷◌ c s) sep =
    let parts = split s sep in if code c == code sep then "" ∷ parts else push c parts

-- `strings.Join` with a separator of one character
unfoldable pub join : List String → Char → String
join [] sep = ""
join (p ∷ []) sep = p
join (p ∷ q ∷ ps) sep = p <> String.◌∷◌ sep (join (q ∷ ps) sep)

-- the value of a run of decimal digits behind `n`
scan_digits : String → ℕ → Option ℕ
scan_digits String.[] n = some n
scan_digits (String.◌∷◌ c s) n =
    let rest = scan_digits s (n * 10 + (code c - 48)) in
    if leb 48 (code c) && leb (code c) 57 then rest else none

scan_nonempty : String → Option ℕ
unfolding scan_digits
scan_nonempty String.[] = none
scan_nonempty (String.◌∷◌ c s) = scan_digits (String.◌∷◌ c s) 0

abbrev within : ℕ → Option ℕ → Option ℕ
within bound none = none
within bound (some n) = if ltb n bound then some n else none

-- `strconv.ParseUint(s, 10, 0)`; `none` stands for its error
unfoldable pub parse_uint : String → Option ℕ
unfolding scan_nonempty
parse_uint s = within 18446744073709551616 (scan_nonempty s)

abbrev pub positive : Option ℕ → Option ℤ
positive none = none
positive (some n) = some (pos n)

abbrev negative : Option ℕ → Option ℤ
negative none = none
negative (some zero) = some (pos 0)
negative (some (suc n)) = some (negsuc n)

-- `strconv.Atoi`: a sign is accepted; `none` stands for its error
unfoldable pub atoi : String → Option ℤ
unfolding scan_nonempty
atoi String.[] = none
atoi (String.◌∷◌ c s) =
    if code c == b'-'
    then negative (within 9223372036854775809 (scan_nonempty s))
    else if code c == b'+'
    then positive (within 9223372036854775808 (scan_nonempty s))
    else positive (within 9223372036854775808 (scan_nonempty (String.◌∷◌ c s)))

abbrev digit : ℕ → String
digit d = get_or ("0" ∷ "1" ∷ "2" ∷ "3" ∷ "4" ∷ "5" ∷ "6" ∷ "7" ∷ "8" ∷ "9" ∷ []) d "0"

-- the digits of `n` in front of a text; `Numbers` shows that `suc n` is enough fuel
emit : ℕ → ℕ → String → String
emit zero n out = out
emit (suc fuel) n out =
    let out' = digit (n % 10) <> out in
    let rest = emit fuel (n / 10) out' in if ltb n 10 then out' else rest

-- `strconv.Itoa` of a count
unfoldable pub digits : ℕ → String
unfolding emit
digits n = emit (suc n) n ""

-- `strconv.Itoa`
unfoldable pub itoa : ℤ → String
itoa (pos n) = digits n
itoa (negsuc n) = "-" <> digits (suc n)
