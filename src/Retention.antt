-- ===== src/Retention.antt =====
-- How old the documents may be that are migrated: `getRetentionAgeInSeconds` and `calculateSeconds`
-- of pkg/opensearch/opensearch_upgrade.go, with `ConvertToRegexp` of pkg/resources/helper.go. Texts
-- are ASCII.
pub mod Seconds
use verrazzano_monitoring_op.Prelude.{
  ◌^◌, ℕ, zero, suc, ◌+◌, ◌-◌, ◌*◌, ◌/◌, ◌%◌, ◌≤◌, ◌<◌, String, ◌<>◌, ◌≡◌, refl, sym, ap, ◌∙◌, ◌≢◌,
  ◌↔◌, ◌⊎◌, inl, inr, Bool, true, false, not, ◌&&◌, ◌||◌, Option, none, some, List, [], ◌∷◌, ◌++◌,
  map, Memᴰ, append_assoc, append-nil, arith, eq_iff, ltb, leb, ◌==◌, ◌=ₜ◌, if◌then◌else◌,
  Bool-cases, Option-cases, length, get_elem?, get_or, take, All, any, all, select, any_of_mem,
  any_witness, mem_of_mem-select, mem-select,
}
use verrazzano_monitoring_op.Prelude.Int.{
  ℤ, pos, negsuc, pos_part, neg_part, sub_ℕ, ◌+ℤ◌, ltb_ℤ, leb_ℤ, eqb_ℤ, quot, add32, add64, wrap64,
  wrap32,
}
use verrazzano_monitoring_op.Prelude.Io.{
  Error, Result, ok, err, panic, Io, pure, raise, crash, lift, settle, attempt, call, continue,
  ◌>>=◌, ◌>>◌,
}
use Prim.Native.Char.{Char, code}
use verrazzano_monitoring_op.Prelude.Text.{digits, parse_uint, split}
use verrazzano_monitoring_op.Vmi.{Vmi, IndexManagementPolicy}

-- `unitMultipliers`, where a missing key reads 0
unfoldable pub unit_multiplier : Char → ℕ
unit_multiplier c =
    if code c == b's'
    then 1
    else if code c == b'm'
    then 60
    else if code c == b'h'
    then 3600
    else if code c == b'd'
    then 86400
    else 0

-- the text without its last character, and that character
unfoldable pub cut_last : Char → String → String × Char
cut_last c String.[] = ("", c)
cut_last c (String.◌∷◌ d s) = let rest = cut_last d s in (String.◌∷◌ c rest.0, rest.1)

-- a product of two `uint64`
seconds_of : Option ℕ → Char → Result ℕ
unfolding unit_multiplier
seconds_of none unit = err "unable to parse the specified time unit"
seconds_of (some number) unit =
    let product = (number * unit_multiplier unit) % 2 ^ 64 in
    if ltb product 1 then err "conversion to seconds for time unit is unsupported" else ok product

unfoldable pub calculate_seconds : String → Result ℕ
unfolding cut_last seconds_of
calculate_seconds String.[] = panic
calculate_seconds (String.◌∷◌ c s) = let (n, unit) = cut_last c s in seconds_of (parse_uint n) unit

convert_parts : (String → String) → List String → String
convert_parts quote_meta [] = ""
convert_parts quote_meta (literal ∷ literals) =
    ".*" <> quote_meta literal <> convert_parts quote_meta literals

convert_from : (String → String) → List String → String
unfolding convert_parts
convert_from quote_meta [] = ""
convert_from quote_meta (literal ∷ literals) =
    quote_meta literal <> convert_parts quote_meta literals

unfoldable pub convert_to_regexp : (String → String) → String → String
unfolding convert_from
convert_to_regexp quote_meta pattern = "^" <> convert_from quote_meta (split pattern "*") <> "$"

printed_seconds : Result ℕ → Result String
unfolding digits
printed_seconds (ok seconds) = ok (digits seconds <> "s")
printed_seconds (err e) = err "failed to calculate the retention age in seconds"
printed_seconds panic = panic

-- `calculateSeconds(*policy.MinIndexAge)`
age_seconds : Option String → Result ℕ
unfolding calculate_seconds
age_seconds none = panic
age_seconds (some age) = calculate_seconds age

-- `match` is `regexp.MatchString`, whose error is ignored
module _ (quote_meta : String → String) (match : String → String → Bool) where
  retention_age : List IndexManagementPolicy → String → Result String
  unfolding printed_seconds age_seconds convert_to_regexp
  retention_age [] index_name = ok ""
  retention_age (policy ∷ policies) index_name =
      let rest = retention_age policies index_name in
      if match (convert_to_regexp quote_meta policy.index_pattern) index_name
      then printed_seconds (age_seconds policy.min_index_age)
      else rest

  unfoldable pub get_retention_age_in_seconds : Vmi → String → Result String
  unfolding retention_age
  get_retention_age_in_seconds vmi index_name =
      retention_age vmi.spec.opensearch.policies index_name
