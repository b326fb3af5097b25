-- ===== src/Rfc5444/Timetlv/LeastCode.antt =====
-- What it means that a time code is the right one (src-api/rfc5444/rfc5444.c), and how to show
-- it by the digits of the code.
use oonf_api.Base.{ℕ, suc, ◌+◌, ◌*◌, ◌/◌, ◌-◌, ◌≤◌, ◌<◌, ◌≡◌, ◌⊎◌, arith}
use oonf_api.Rfc5444.Timetlv.{Scaled, pack_time, timetlv_decode}
use oonf_api.Rfc5444.Timetlv.Values.{
  timetlv_decode_mono, time_value, timetlv_decode-time_value, timetlv_decode-le-time_value,
}

-- `e` is the least code whose time is at least `t`; it is not the code of infinity.
pub record IsLeastCode (t e : ℕ) : Type 0 where
  pub finite : e < 255
  pub enough : t ≤ timetlv_decode e
  pub least : (f : ℕ) → f < e → timetlv_decode f < t

pub IsLeastCode-suc :
    (t e : ℕ) → e < 254 → t ≤ timetlv_decode (suc e) → timetlv_decode e < t → IsLeastCode t (suc e)
IsLeastCode-suc t e h up down = record {
  finite = omega arith;
  enough = up;
  least = λ f lt. omega (arith, timetlv_decode_mono (e - f) f e (omega arith) (omega arith));
}

-- The same for a code given by its digits, and for the code before it.
pub IsLeastCode-digits :
    (t b a : ℕ)
    → suc a < 8
    → 8 * b + suc a < 255
    → t ≤ time_value b (suc a)
    → time_value b a < t
    → IsLeastCode t (8 * b + suc a)
IsLeastCode-digits t b a ha hl up down =
    let e : 8 * b + suc a ≡ suc (8 * b + a) = omega arith in
    rw e (
      IsLeastCode-suc t (8 * b + a) (omega arith)
        (rw (← e) (omega (arith, timetlv_decode-time_value b (suc a) ha (omega arith) hl)))
        (omega (arith, timetlv_decode-le-time_value b a (omega arith) (omega arith))))

pub IsLeastCode-carry :
    (t b : ℕ)
    → 8 * suc b < 255
    → t ≤ time_value (suc b) 0
    → time_value b 7 < t
    → IsLeastCode t (8 * suc b + 0)
IsLeastCode-carry t b hl up down =
    let e : 8 * suc b + 0 ≡ suc (8 * b + 7) = omega arith in
    rw e (
      IsLeastCode-suc t (8 * b + 7) (omega arith)
        (rw (← e) (
          omega
            (arith, timetlv_decode-time_value (suc b) 0 (omega arith) (omega arith) (omega arith))))
        (omega (arith, timetlv_decode-le-time_value b 7 (omega arith) (omega arith))))

-- The eighths that the encoder computes from a mantissa.
abbrev pub eighths : ℕ → ℕ
eighths m = (m + 124 - 1000) / 125

pub pack_time-eighths :
    (s : Scaled)
    → 938 ≤ s.decoded
    → s.decoded < 2000
    → s.b < 31 ⊎ ((s.b ≡ 31) × (s.decoded < 1875))
    → pack_time s ≡ 8 * s.b + eighths s.decoded
unfolding pack_time
pack_time-eighths s lo hi hb = omega arith
