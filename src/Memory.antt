-- ===== src/Memory.antt =====
-- pkg/util/memory: JVM heap arguments derived from the memory that a pod requests.
-- `int64` division and remainder truncate towards zero. `float64` arithmetic on a size below 2^52
-- bytes is exact (a quotient by a power of two, and a sum that fits 53 bits), so only the rounding
-- of `%.0f`, half to even, is written out; larger sizes are outside the model.
pub mod Bounds
use verrazzano_monitoring_op.Prelude.{
  ℕ, suc, ◌+◌, ◌-◌, ◌*◌, ◌/◌, ◌%◌, String, ◌<>◌, Bool, true, false, ◌&&◌, Option, none, some, ltb,
  leb, ◌==◌, ◌=ₜ◌, if◌then◌else◌,
}
use verrazzano_monitoring_op.Prelude.Int.{
  ℤ, pos, negsuc, pos_part, neg_part, quot, wrap64, leb_ℤ, add64,
}
use verrazzano_monitoring_op.Prelude.Text.{itoa, digits}
use verrazzano_monitoring_op.Prelude.Io.{Result, ok, err}
use verrazzano_monitoring_op.Prelude.Io.Fallible.{◌>>=◌}

abbrev pub unit_k : ℕ
unit_k = 1024

abbrev pub unit_m : ℕ
unit_m = 1048576

abbrev pub unit_g : ℕ
unit_g = 1073741824

unfoldable pub format_jvm_heap_min_max : String → String
format_jvm_heap_min_max heap = "-Xms" <> heap <> " -Xmx" <> heap

-- `num / den` rounded to the nearest integer, a half to the even one
unfoldable pub round_half_even : ℕ → ℕ → ℕ
round_half_even num den =
    let q = num / den in
    let r2 = 2 * (num % den) in if ltb r2 den then q else if ltb den r2 then q + 1 else q + q % 2

-- `sizeB % unit == 0`
abbrev divides : ℕ → ℤ → Bool
divides unit size = (pos_part size + neg_part size) % unit == 0

-- `fmt.Sprintf("%.0f", float64(sizeB)/unit)` of a size that the unit divides
abbrev whole : ℤ → ℕ → String
whole size unit = itoa (quot size unit)

-- `fmt.Sprintf("%.0f", float64(sizeB)/unit+1)` of a positive size
abbrev plus_one : ℤ → ℕ → String
plus_one size unit = digits (round_half_even (pos_part size + unit) unit)

unfoldable pub format_jvm_heap_size : ℤ → String
unfolding quot
format_jvm_heap_size size =
    if leb_ℤ (pos unit_g) size
    then (if divides unit_g size
        then whole size unit_g <> "g"
        else if divides unit_m size
        then whole size unit_m <> "m"
        else plus_one size unit_m <> "m")
    else if leb_ℤ (pos unit_m) size && divides unit_m size
    then whole size unit_m <> "m"
    else if divides unit_k size
    then whole size unit_k <> "k"
    else itoa (add64 (quot size unit_k) (pos 1)) <> "k"

-- the product of two `int64`, one of them a small constant
unfoldable pub mul64 : ℤ → ℕ → ℤ
unfolding wrap64
mul64 (pos n) k = wrap64 (pos (n * k))
mul64 (negsuc n) k = if k == 0 then pos 0 else wrap64 (negsuc (suc n * k - 1))

-- `resource.ParseQuantity` followed by `Value`, of a library outside the repository: the bytes
-- that a quantity stands for, or an error.
module _ (parse_quantity : String → Result ℤ) where
  unfoldable pub pod_mem_to_jvm_heap : String → Result String
  unfolding format_jvm_heap_size mul64
  pod_mem_to_jvm_heap size = do
    value ← parse_quantity size
    ok (format_jvm_heap_size (quot (mul64 value 75) 100))

  unfoldable pub pod_mem_to_jvm_heap_args : String → String → Result String
  unfolding pod_mem_to_jvm_heap format_jvm_heap_min_max
  pod_mem_to_jvm_heap_args size default_value =
      if size =ₜ ""
      then ok default_value
      else (do heap ← pod_mem_to_jvm_heap size; ok (format_jvm_heap_min_max heap))
