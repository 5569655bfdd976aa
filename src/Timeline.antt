-- ===== src/Timeline.antt =====
-- src/recording.cpp and src/duration_probe.cpp, the helpers that both files declare: time stamps
-- in microseconds and the distance between two of them.
pub mod Micros
mod Tests
use libaribtlv.Base.{
  ℕ, ◌+◌, ◌-◌, ◌/◌, ◌%◌, ◌^◌, Bool, true, false, Option, none, some, if◌then◌else◌, ◌==◌, ltb, ◌&&◌,
  ◌||◌,
}
use libaribtlv.Base.Int.{
  ℤ, pos, negsuc, pos_part, neg_part, sub_ℕ, ◌+ℤ◌, ◌-ℤ◌, ◌*ℤ◌, ltb_ℤ, eqb_ℤ, int64_max, int64_min,
}
use libaribtlv.Types.{Timestamp}

abbrev pub microsecond_timescale : ℕ
microsecond_timescale = 1000000

-- `/` and `%` of C++ truncate towards zero; the divisor is a positive number here.
unfoldable pub quotient : ℤ → ℕ → ℤ
quotient a n = sub_ℕ (pos_part a / n) (neg_part a / n)

unfoldable pub remainder : ℤ → ℕ → ℤ
remainder a n = sub_ℕ (pos_part a % n) (neg_part a % n)

-- The code behind the division by the timescale; `none` is the result false.
unfoldable pub scaled : ℤ → ℤ → ℕ → Option ℤ
scaled whole rest scale =
    let factor = pos microsecond_timescale in
    if ltb_ℤ (pos ((2 ^ 63 - 1) / microsecond_timescale)) whole
      || ltb_ℤ whole (sub_ℕ 0 (2 ^ 63 / microsecond_timescale))
    then none
    else let fractional = quotient (rest *ℤ factor) scale in
      let scaled_whole = whole *ℤ factor in
      if ltb_ℤ (pos 0) fractional && ltb_ℤ (int64_max -ℤ fractional) scaled_whole
        || ltb_ℤ fractional (pos 0) && ltb_ℤ scaled_whole (int64_min -ℤ fractional)
      then none
      else some (scaled_whole +ℤ fractional)

unfoldable pub timestamp_microseconds : Timestamp → Option ℤ
timestamp_microseconds t =
    if t.timescale == 0
    then none
    else scaled (quotient t.value t.timescale) (remainder t.value t.timescale) t.timescale

-- The bit pattern of a std::int64_t.
abbrev pub unsigned64 : ℤ → ℕ
unsigned64 a = (pos_part a + 2 ^ 64 - neg_part a) % 2 ^ 64

abbrev wrapped_sub : ℕ → ℕ → ℕ
wrapped_sub a b = (a + 2 ^ 64 - b) % 2 ^ 64

unfoldable pub timestamp_distance : ℤ → ℤ → Option ℤ
timestamp_distance first second =
    if eqb_ℤ first second
    then none
    else let difference =
        if ltb_ℤ second first
        then wrapped_sub (unsigned64 first) (unsigned64 second)
        else wrapped_sub (unsigned64 second) (unsigned64 first) in
      if ltb (2 ^ 63 - 1) difference then none else some (pos difference)
