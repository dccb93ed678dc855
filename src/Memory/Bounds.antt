-- ===== src/Memory/Bounds.antt =====
-- How far the printed heap size is from the size that was asked for.
use verrazzano_monitoring_op.Prelude.{
  ℕ, ◌+◌, ◌*◌, ◌/◌, ◌%◌, ◌≤◌, ◌<◌, ◌^◌, ◌≡◌, String, ◌<>◌, arith, ◌==◌, leb, if◌then◌else◌,
}
use verrazzano_monitoring_op.Prelude.Int.{pos, add64-pos}
use verrazzano_monitoring_op.Prelude.Text.{digits, itoa}
use verrazzano_monitoring_op.Memory.{unit_k, unit_m, unit_g, round_half_even, format_jvm_heap_size}

pub data HeapUnit : Type 0 where
  kilo mega giga : HeapUnit

abbrev pub letter : HeapUnit → String
letter kilo = "k"
letter mega = "m"
letter giga = "g"

abbrev pub bytes : HeapUnit → ℕ
bytes kilo = 1024
bytes mega = 1048576
bytes giga = 1073741824

-- the unit in which a size is printed
unfoldable pub heap_unit : ℕ → HeapUnit
heap_unit s =
    if leb unit_g s
    then (if s % unit_g == 0 then giga else mega)
    else if leb unit_m s
    then (if s % unit_m == 0 then mega else kilo)
    else kilo

-- the count of that unit that is printed
unfoldable pub heap_count : ℕ → ℕ
unfolding round_half_even
heap_count s =
    if leb unit_g s
    then (if s % unit_g == 0
        then s / unit_g
        else if s % unit_m == 0
        then s / unit_m
        else round_half_even (s + unit_m) unit_m)
    else if leb unit_m s
    then (if s % unit_m == 0
        then s / unit_m
        else if s % unit_k == 0
        then s / unit_k
        else s / unit_k + 1)
    else if s % unit_k == 0
    then s / unit_k
    else s / unit_k + 1

format-count-unit :
    (s : ℕ)
    → s < 2 ^ 52
    → format_jvm_heap_size (pos s) ≡ digits (heap_count s) <> letter (heap_unit s)
unfolding format_jvm_heap_size heap_count heap_unit itoa
format-count-unit s h = ground (arith, add64-pos (s / 1024) 1)

-- A positive size below 4 PiB is printed as a count and a unit which together are at least the
-- size, and exceed it by one and a half units at most.
pub heap_bounds :
    (s : ℕ)
    → s < 2 ^ 52
    → (format_jvm_heap_size (pos s) ≡ digits (heap_count s) <> letter (heap_unit s))
      × (s ≤ heap_count s * bytes (heap_unit s))
      × (2 * (heap_count s * bytes (heap_unit s)) ≤ 2 * s + 3 * bytes (heap_unit s))
unfolding heap_count heap_unit
heap_bounds s h = (format-count-unit s h, ground arith, ground arith)

-- From 1 GiB up and below 4 PiB, a size that passes a whole number of MiB by more than a half is
-- printed as two MiB above that number, not as the next one.
pub heap_skips_a_unit :
    (s : ℕ)
    → 2 ^ 30 ≤ s
    → s < 2 ^ 52
    → 2 ^ 19 < s % 2 ^ 20
    → format_jvm_heap_size (pos s) ≡ digits (s / 2 ^ 20 + 2) <> "m"
unfolding format_jvm_heap_size round_half_even
heap_skips_a_unit s g h r = ground arith
