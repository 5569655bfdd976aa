-- ===== src/Timeline/Micros.antt =====
-- What the helpers compute.
use native.Mathlib.Nat.{mul-add-div, div-add-mod', zero-div, zero-mod}
use mathlib.Core.Path.{subst}
use libaribtlv.Base.{
  ℕ, zero, suc, ◌+◌, ◌*◌, ◌/◌, ◌%◌, ◌<◌, ◌≡◌, sym, ap, ◌∙◌, ◌↔◌, ◌⊎◌, inl, inr, Bool, false, Option,
  none, some, if◌then◌else◌, ◌==◌, ◌&&◌, arith,
}
use libaribtlv.Base.Int.{
  ℤ, pos, negsuc, pos_part, neg_part, sub_ℕ, ◌+ℤ◌, ◌-ℤ◌, ◌*ℤ◌, ◌≤ℤ◌, ◌<ℤ◌, leb_ℤ, int64_max,
  int64_min, InInt64, +ℤ_parts, -ℤ_parts, eq_of_parts,
}
use libaribtlv.Timeline.{
  microsecond_timescale, quotient, remainder, scaled, timestamp_microseconds, timestamp_distance,
}
use libaribtlv.Types.{Timestamp}

-- Whole units and the rest, scaled apart, are the scaled number.
scale_split : (n s f : ℕ) → 0 < s → n / s * f + n % s * f / s ≡ n * f / s
scale_split n s f h =
    sym (mul-add-div h (n / s * f) (n % s * f))
    ∙ ap (λ k. k / s) (omega (arith, ap (λ t. t * f) (div-add-mod' n s)))

neg : ℕ → ℤ
neg n = sub_ℕ 0 n

quotient-pos : (n s : ℕ) → quotient (pos n) s ≡ pos (n / s)
unfolding quotient
quotient-pos n s = rw (zero-div s) (ground arith)

quotient-neg : (n s : ℕ) → quotient (neg n) s ≡ neg (n / s)
unfolding quotient neg
quotient-neg zero s = ground (arith, zero-div s)
quotient-neg (suc n) s = ground (arith, zero-div s)

remainder-pos : (n s : ℕ) → remainder (pos n) s ≡ pos (n % s)
unfolding remainder
remainder-pos n s = rw (zero-mod s) (ground arith)

remainder-neg : (n s : ℕ) → remainder (neg n) s ≡ neg (n % s)
unfolding remainder neg
remainder-neg zero s = ground (arith, zero-mod s)
remainder-neg (suc n) s = ground (arith, zero-mod s)

pos-*ℤ : (n f : ℕ) → pos n *ℤ pos f ≡ pos (n * f)
unfolding ◌*ℤ◌
pos-*ℤ n f = ground arith

neg-*ℤ : (n f : ℕ) → neg n *ℤ pos f ≡ neg (n * f)
unfolding ◌*ℤ◌ neg
neg-*ℤ zero f = ground arith
neg-*ℤ (suc n) f = ground arith

-- The number of microseconds, truncated towards zero.
pub exact_micros : Timestamp → ℤ
exact_micros t = quotient (t.value *ℤ pos microsecond_timescale) t.timescale

pub in_int64 : ℤ → Bool
in_int64 a = leb_ℤ int64_min a && leb_ℤ a int64_max

-- The result for a number of microseconds.
abbrev fitted : ℤ → Option ℤ
fitted a = if in_int64 a then some a else none

scaled-pos :
    (w r s k : ℕ)
    → quotient (pos r *ℤ pos microsecond_timescale) s ≡ pos k
    → scaled (pos w) (pos r) s ≡ fitted (pos (w * microsecond_timescale + k))
unfolding scaled in_int64 ◌*ℤ◌ ◌+ℤ◌ ◌-ℤ◌
scaled-pos w r s k e = rw e (ground arith)

parts-neg : (n : ℕ) → (pos_part (neg n) ≡ 0) × (neg_part (neg n) ≡ n)
unfolding neg
parts-neg zero = ground arith
parts-neg (suc n) = ground arith

neg-+ℤ : (m k : ℕ) → neg m +ℤ neg k ≡ neg (m + k)
neg-+ℤ m k =
    eq_of_parts _ _
      (omega (arith, +ℤ_parts (neg m) (neg k), parts-neg m, parts-neg k, parts-neg (m + k)))

scaled-neg :
    (w r s k : ℕ)
    → quotient (neg r *ℤ pos microsecond_timescale) s ≡ neg k
    → scaled (neg w) (neg r) s ≡ fitted (neg (w * microsecond_timescale + k))
unfolding scaled in_int64
scaled-neg w r s k e =
    let m : ℕ = w * microsecond_timescale in
    rw (e, neg-*ℤ w microsecond_timescale, neg-+ℤ m k)
      (ground (
        arith,
        parts-neg w,
        parts-neg k,
        parts-neg m,
        parts-neg (m + k),
        -ℤ_parts int64_min (neg k),
        -ℤ_parts int64_max (neg k),
      ))

negsuc-neg : (n : ℕ) → negsuc n ≡ neg (suc n)
unfolding neg
negsuc-neg n = ground arith

micros-pos :
    (n s : ℕ)
    → 0 < s
    → timestamp_microseconds (record { value = pos n; timescale = s })
      ≡ fitted (quotient (pos n *ℤ pos microsecond_timescale) s)
unfolding timestamp_microseconds
micros-pos n s h =
    let whole =
      scaled-pos (n / s) (n % s) s (n % s * microsecond_timescale / s)
        (rw (pos-*ℤ (n % s) microsecond_timescale) (quotient-pos _ s)) in
    let test : (s == 0) ≡ false = ground arith in
    rw
      (
        test,
        quotient-pos n s,
        remainder-pos n s,
        pos-*ℤ n microsecond_timescale,
        quotient-pos (n * microsecond_timescale) s,
        ← scale_split n s microsecond_timescale h,
      )
      whole

micros-neg :
    (n s : ℕ)
    → 0 < s
    → timestamp_microseconds (record { value = neg n; timescale = s })
      ≡ fitted (quotient (neg n *ℤ pos microsecond_timescale) s)
unfolding timestamp_microseconds
micros-neg n s h =
    let whole =
      scaled-neg (n / s) (n % s) s (n % s * microsecond_timescale / s)
        (rw (neg-*ℤ (n % s) microsecond_timescale) (quotient-neg _ s)) in
    let test : (s == 0) ≡ false = ground arith in
    rw
      (
        test,
        quotient-neg n s,
        remainder-neg n s,
        neg-*ℤ n microsecond_timescale,
        quotient-neg (n * microsecond_timescale) s,
        ← scale_split n s microsecond_timescale h,
      )
      whole

micros :
    (v : ℤ) (s : ℕ)
    → 0 < s
    → timestamp_microseconds (record { value = v; timescale = s })
      ≡ fitted (quotient (v *ℤ pos microsecond_timescale) s)
micros (pos n) s h = micros-pos n s h
micros (negsuc n) s h = rw (negsuc-neg n) (micros-neg (suc n) s h)

-- `timestamp_microseconds` is exact: for a stamp with a timescale it gives the microseconds of the
-- stamp, truncated towards zero, whenever these fit in 64 bits, and fails otherwise.
pub timestamp_microseconds-exact :
    (t : Timestamp)
    → 0 < t.timescale
    → timestamp_microseconds t ≡ (if in_int64 (exact_micros t) then some (exact_micros t) else none)
unfolding exact_micros
timestamp_microseconds-exact t h = micros t.value t.timescale h

-- What makes `d` the distance of `a` and `b`.
abbrev pub Distance : ℤ → ℤ → ℤ → Type 0
Distance a b d = (pos 0 <ℤ d) × (d ≤ℤ int64_max) × ((a ≡ b +ℤ d) ⊎ (b ≡ a +ℤ d))

Distance-sound :
    (a b d : ℤ) → InInt64 a → InInt64 b → timestamp_distance a b ≡ some d → Distance a b d
unfolding timestamp_distance ◌+ℤ◌
Distance-sound a b d ha hb e = ground arith

distance_up :
    (b d : ℤ)
    → InInt64 (b +ℤ d)
    → InInt64 b
    → pos 0 <ℤ d
    → d ≤ℤ int64_max
    → timestamp_distance (b +ℤ d) b ≡ some d
unfolding timestamp_distance ◌+ℤ◌
distance_up b d ha hb p m = ground arith

distance_down :
    (a d : ℤ)
    → InInt64 a
    → InInt64 (a +ℤ d)
    → pos 0 <ℤ d
    → d ≤ℤ int64_max
    → timestamp_distance a (a +ℤ d) ≡ some d
unfolding timestamp_distance ◌+ℤ◌
distance_down a d ha hb p m = ground arith

-- Two 64-bit stamps have the distance `d` exactly if `d` is positive, fits in 64 bits, and takes one
-- of them to the other: the unsigned subtraction never gives another number.
pub timestamp_distance_lem :
    (a b d : ℤ)
    → InInt64 a
    → InInt64 b
    → (timestamp_distance a b ≡ some d)
      ↔ ((pos 0 <ℤ d) × (d ≤ℤ int64_max) × ((a ≡ b +ℤ d) ⊎ (b ≡ a +ℤ d)))
timestamp_distance_lem a b d ha hb = (
  Distance-sound a b d ha hb,
  λ h. elim h.2 [
    | inl e ↦
        subst (λ t. timestamp_distance t b ≡ some d) (sym e)
          (distance_up b d (subst InInt64 e ha) hb h.0 h.1)
    | inr e ↦
        subst (λ t. timestamp_distance a t ≡ some d) (sym e)
          (distance_down a d ha (subst InInt64 e hb) h.0 h.1)
  ],
)
