-- ===== src/Rfc5444/Metric.antt =====
-- Link metrics of OLSRv2 (src-api/rfc5444/rfc5444.c): a code `256 * a + b` stands for the metric
-- (257 + b) * 2 ^ a - 256.
pub mod Shrink
pub mod Rounding
use oonf_api.Base.{ℕ, zero, suc, ◌+◌, ◌*◌, ◌/◌, ◌^◌, ◌-◌, ◌||◌, ltb, leb, if◌then◌else◌, bit_and}
use oonf_api.Base.Word.{u8, u16, u32, sub32}

abbrev pub metric_max : ℕ
metric_max = 0xff_ff00

abbrev pub metric_min : ℕ
metric_min = 0x00_0001

abbrev pub metric_infinite : ℕ
metric_infinite = 0xff_ffff

-- The loop variables `a` and `decoded` of the encoder.
pub record Scaled : Type 0 where
  pub a : ℕ
  pub decoded : ℕ

-- `while (decoded > 512)`, halving and rounding up.
unfoldable pub shrink : ℕ → ℕ → ℕ → Scaled
shrink zero a d = record { a = a; decoded = d }
shrink (suc fuel) a d =
    let rest = shrink fuel (u8 (a + 1)) (u32 (d + 1) / 2) in
    if ltb 512 d then rest else record { a = a; decoded = d }

unfoldable pub pack_metric : Scaled → ℕ
pack_metric s = u16 (s.a * 2 ^ 8 + u8 (sub32 s.decoded 257))

-- The loop gets a round for each bit of its 32-bit variable.
unfoldable pub metric_encode : ℕ → ℕ
unfolding shrink pack_metric
metric_encode decoded =
    if ltb decoded metric_min || leb metric_infinite decoded
    then 0
    else if ltb metric_max decoded
    then 0x0fff
    else pack_metric (shrink 32 0 (u32 (decoded + 256)))

unfoldable pub metric_decode : ℕ → ℕ
metric_decode encoded =
    let a = bit_and (encoded / 2 ^ 8) 0x0f in
    let b = bit_and encoded 0xff in (257 + b) * 2 ^ a - 256
