-- ===== src/Rfc5444/Timetlv/Values.antt =====
-- The decoder of time codes (src-api/rfc5444/rfc5444.c) as a formula of exponent and mantissa.
use oonf_api.Base.{
  ℕ, zero, suc, ◌+◌, ◌*◌, ◌/◌, ◌^◌, ◌-◌, ◌≤◌, ◌<◌, ◌≡◌, refl, true, false, leb, leb→le, ◌==◌, arith,
  bit_and, if◌then◌else◌,
}
use oonf_api.Base.Bits.{bit_and-seven}
use oonf_api.Base.Range.{passes, passes-lt}
use oonf_api.Base.Word.{u64}
use oonf_api.Rfc5444.Timetlv.{timetlv_decode}

mono_table : passes (λ e. leb (timetlv_decode e) (timetlv_decode (e + 1))) 254 ≡ true
unfolding passes timetlv_decode
mono_table = refl

-- A larger code stands for a time at least as long.
pub timetlv_decode_mono : (n e f : ℕ) → e + n ≡ f → f < 255 → timetlv_decode e ≤ timetlv_decode f
timetlv_decode_mono zero e f p h = let same : e ≡ f = omega arith in rw same (omega arith)
timetlv_decode_mono (suc n) e f p h = omega (
  arith,
  leb→le _ _ (passes-lt _ 254 e (omega arith) mono_table),
  timetlv_decode_mono n (e + 1) f (omega arith) h,
)

-- (1 + a / 8) * 2 ^ b * 1000 / 1024
pub time_value : ℕ → ℕ → ℕ
time_value b a =
    if leb b 10 then (1000 + 125 * a) / 2 ^ (10 - b) else u64 ((1000 + 125 * a) * 2 ^ (b - 10))

pub timetlv_decode-time_value :
    (b a : ℕ)
    → a < 8
    → 0 < 8 * b + a
    → 8 * b + a < 255
    → timetlv_decode (8 * b + a) ≡ time_value b a
unfolding timetlv_decode time_value
timetlv_decode-time_value b a ha hp hl =
    let ea : bit_and (8 * b + a) 7 ≡ a = omega (arith, bit_and-seven (8 * b + a)) in
    let eb : (8 * b + a) / 2 ^ 3 ≡ b = omega arith in
    let e0 : (8 * b + a == 0) ≡ false = ground arith in
    let e1 : (8 * b + a == 255) ≡ false = ground arith in rw (e0, e1, ea, eb)

pub timetlv_decode-le-time_value :
    (b a : ℕ) → a < 8 → 8 * b + a < 255 → timetlv_decode (8 * b + a) ≤ time_value b a
unfolding timetlv_decode
timetlv_decode-le-time_value zero zero ha hl = omega arith
timetlv_decode-le-time_value zero (suc a) ha hl =
    omega (arith, timetlv_decode-time_value 0 (suc a) ha (omega arith) hl)
timetlv_decode-le-time_value (suc b) a ha hl =
    omega (arith, timetlv_decode-time_value (suc b) a ha (omega arith) hl)

pub mul_mono : (x y s : ℕ) → x ≤ y → x * s ≤ y * s
mul_mono x y s h = grind arith

pub le-div : (d x s : ℕ) → 0 < s → d * s ≤ x → d ≤ x / s
le-div d x s p h = grind arith

pub div-lt : (d x s : ℕ) → 0 < s → x < d * s → x / s < d
div-lt d x s p h = grind arith

pub time_value_low : (b k a : ℕ) → b + k ≡ 10 → time_value b a ≡ (1000 + 125 * a) / 2 ^ k
unfolding time_value
time_value_low b k a h =
    let e : 10 - b ≡ k = omega arith in let t : leb b 10 ≡ true = ground arith in rw (t, e)

pub time_value_high :
    (k a : ℕ) → a < 8 → 2 ^ k ≤ 2 ^ 21 → time_value (10 + k) a ≡ (1000 + 125 * a) * 2 ^ k
unfolding time_value
time_value_high zero a ha hk = omega arith
time_value_high (suc k) a ha hk =
    let e : 10 + suc k - 10 ≡ suc k = omega arith in
    let t : leb (10 + suc k) 10 ≡ false = ground arith in
    let fits : (1000 + 125 * a) * 2 ^ suc k < 2 ^ 64 =
      omega (arith, mul_mono (1000 + 125 * a) 1875 (2 ^ suc k) (omega arith)) in
    rw (t, e) (omega arith)
