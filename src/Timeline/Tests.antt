-- ===== src/Timeline/Tests.antt =====
-- The helpers at concrete stamps.
use libaribtlv.Base.{◌≡◌, ◌↔◌, ◌⊎◌, none, some, if◌then◌else◌, arith}
use libaribtlv.Base.Int.{pos, negsuc, ◌+ℤ◌, ◌≤ℤ◌, ◌<ℤ◌, int64_max}
use libaribtlv.Types.{Timestamp}
use libaribtlv.Timeline.Micros.{
  in_int64, exact_micros, timestamp_microseconds-exact, timestamp_distance_lem,
}
use libaribtlv.Timeline.{timestamp_microseconds, timestamp_distance}

abbrev tick : Timestamp
tick = record { value = negsuc 90001; timescale = 90000 }

timestamp_microseconds-exact_example :
    timestamp_microseconds tick
    ≡ (if in_int64 (exact_micros tick) then some (exact_micros tick) else none)
timestamp_microseconds-exact_example = timestamp_microseconds-exact tick (omega arith)

timestamp_distance_lem_example : (timestamp_distance (pos 5) (negsuc 9) ≡ some (pos 15)) ↔ (
    (pos 0 <ℤ pos 15)
    × (pos 15 ≤ℤ int64_max)
    × ((pos 5 ≡ negsuc 9 +ℤ pos 15) ⊎ (negsuc 9 ≡ pos 5 +ℤ pos 15)))
timestamp_distance_lem_example =
    timestamp_distance_lem (pos 5) (negsuc 9) (pos 15) (omega arith, omega arith)
      (omega arith, omega arith)
