-- ===== src/Timer/Deadline.antt =====
-- The time at which a timer fires (`_calc_clock`, src-api/subsystems/oonf_timer.c).
use native.Mathlib.Nat.{mul-le-mul, mul-le-mul_right, le-div_iff_mul-le, div-lt_iff_lt-mul}
use oonf_api.Base.Word.{u64, sub64}
use oonf_api.Base.{
  ℕ, ◌+◌, ◌-◌, ◌*◌, ◌/◌, ◌%◌, ◌^◌, ◌≤◌, ◌<◌, ◌≡◌, ◌≢◌, ◌==◌, if◌then◌else◌, Bool-cases, inl, inr,
  arith,
}
use oonf_api.Timer.{TimerEntry, calc_clock, oonf_clock_get_absolute, timeslice}

-- The part of the deadline that the jitter takes off.
jitter_part : ℕ → TimerEntry → ℕ → ℕ
jitter_part rand_max timer rel =
    if timer.jitter_pct == 0
    then 0
    else u64 (timer.random / (rand_max / timer.jitter_pct) * rel) / 100

jitter-le : (r p R : ℕ) → r ≤ R → p ≢ 0 → p ≤ 100 → 32767 ≤ R → r / (R / p) ≤ p
jitter-le r p R h nz le big =
    let q : ℕ = R / p in
    let square : p * p ≤ 100 * 100 = mul-le-mul le le in
    let large : p ≤ q = (le-div_iff_mul-le (omega arith)).1 (omega arith) in
    let rest : R < (q + 1) * p = (div-lt_iff_lt-mul (omega arith)).0 (omega arith) in
    let wide : (q + 1) * p ≤ (p + 1) * q = grind arith in
    let less : r / q < p + 1 = (div-lt_iff_lt-mul (omega arith)).1 (omega arith) in omega arith

jitter_part-le :
    (R : ℕ) (timer : TimerEntry) (rel : ℕ)
    → timer.random ≤ R
    → 32767 ≤ R
    → timer.jitter_pct ≤ 50
    → timer.jitter_pct * rel < 2 ^ 64
    → (jitter_part R timer rel ≤ timer.jitter_pct * rel / 100) × (2 * jitter_part R timer rel ≤ rel)
unfolding jitter_part
jitter_part-le R timer rel h big pct small = elim (Bool-cases (timer.jitter_pct == 0)) [
  | inl none_set ↦ rw none_set (omega arith, omega arith)
  | inr given ↦
      let nonzero : timer.jitter_pct ≢ 0 = ground arith in
      let most : timer.random / (R / timer.jitter_pct) * rel ≤ timer.jitter_pct * rel =
        mul-le-mul-right (jitter-le timer.random timer.jitter_pct R h nonzero (omega arith) big) in
      let half : timer.jitter_pct * rel ≤ 50 * rel = mul-le-mul-right pct in
      rw given (omega (arith, most, small), omega (arith, most, half, small))
]
  where
    mul-le-mul-right : {a b : ℕ} → a ≤ b → a * rel ≤ b * rel
    mul-le-mul-right e = mul-le-mul_right rel e

-- The rounding, for a jitter `t`.
rounded : ℕ → ℕ → ℕ → ℕ
rounded now rel t =
    let clock = u64 (u64 (now + sub64 (sub64 rel t) t) + timeslice) in clock - clock % timeslice

rounded-bounds :
    (now rel t j : ℕ)
    → 2 * t ≤ rel
    → t ≤ j
    → now + rel + timeslice < 2 ^ 64
    → (rounded now rel t % timeslice ≡ 0)
      × (now < rounded now rel t)
      × (rounded now rel t ≤ now + rel + timeslice)
      × (now + rel < rounded now rel t + 2 * j)
unfolding rounded
rounded-bounds now rel t j half le room =
    let one : sub64 rel t ≡ rel - t = omega arith in
    let two : sub64 (rel - t) t ≡ rel - t - t = omega arith in
    let sum : u64 (now + (rel - t - t)) ≡ now + (rel - t - t) = omega arith in
    let slice : u64 (now + (rel - t - t) + timeslice) ≡ now + (rel - t - t) + timeslice =
      omega arith in
    rw (one, two, sum, slice) (omega arith, omega arith, omega arith, omega arith)

-- For a jitter of at most half of the interval, a random number of at most `RAND_MAX`, which is at
-- least 32767, and sums and products below 2 ^ 64, a timer fires at a multiple of the time slice,
-- in the future, at most one slice after the interval has passed, and at most twice the share of
-- the jitter before that: the code takes the jitter off two times.
pub calc_clock-bounds :
    (rand_max now : ℕ) (timer : TimerEntry) (rel : ℕ)
    → timer.random ≤ rand_max
    → 32767 ≤ rand_max
    → timer.jitter_pct ≤ 50
    → timer.jitter_pct * rel < 2 ^ 64
    → now + rel + timeslice < 2 ^ 64
    → let clock = calc_clock rand_max now timer rel in
      (clock % timeslice ≡ 0)
      × (now < clock)
      × (clock ≤ now + rel + timeslice)
      × (now + rel < clock + 2 * (timer.jitter_pct * rel / 100))
unfolding calc_clock oonf_clock_get_absolute jitter_part rounded
calc_clock-bounds R now timer rel h big pct small room =
    let (less, half) = jitter_part-le R timer rel h big pct small in
    rounded-bounds now rel (jitter_part R timer rel) (timer.jitter_pct * rel / 100) half less room
