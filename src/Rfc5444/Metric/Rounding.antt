-- ===== src/Rfc5444/Metric/Rounding.antt =====
-- The metric code of OLSRv2 is the least one that does not lower the metric
-- (src-api/rfc5444/rfc5444.c).
use native.Mathlib.Nat.{pow-suc, one-le-pow, pow-le-pow_right}
use oonf_api.Base.{
  ℕ, zero, suc, ◌+◌, ◌-◌, ◌*◌, ◌/◌, ◌^◌, ◌≤◌, ◌<◌, ◌≡◌, refl, ◌⊎◌, inl, inr, true, false,
  Bool-cases, ltb, leb, leb→le, ltb→lt, ◌==◌, ==_iff, ap, ◌∙◌, bit_and, arith, ◌||◌,
}
use oonf_api.Base.Bits.{bit_and-fifteen, bit_and-byte_mask}
use oonf_api.Base.Range.{passes, passes-lt}
use oonf_api.Base.Word.{u32}
use oonf_api.Rfc5444.Metric.{Scaled, pack_metric, metric_encode, metric_decode, metric_max}
use oonf_api.Rfc5444.Metric.Shrink.{Shrunk, shrink-Shrunk}

metric_decode-digits :
    (a b : ℕ) → a < 16 → b < 256 → metric_decode (256 * a + b) ≡ (257 + b) * 2 ^ a - 256
unfolding metric_decode
metric_decode-digits a b ha hb =
    let ea : bit_and ((256 * a + b) / 2 ^ 8) 15 ≡ a =
      omega (arith, bit_and-fifteen ((256 * a + b) / 2 ^ 8)) in
    let eb : bit_and (256 * a + b) 255 ≡ b = omega (arith, bit_and-byte_mask (256 * a + b)) in
    rw (ea, eb)

mono_table : passes (λ e. ltb (metric_decode e) (metric_decode (e + 1))) 4095 ≡ true
unfolding passes metric_decode
mono_table = refl

round_trip_table : passes (λ e. metric_encode (metric_decode e) == e) 4096 ≡ true
unfolding passes metric_decode metric_encode
round_trip_table = refl

metric_decode_mono : (n e f : ℕ) → e + n ≡ f → f < 4096 → metric_decode e ≤ metric_decode f
metric_decode_mono zero e f p h = let same : e ≡ f = omega arith in rw same (omega arith)
metric_decode_mono (suc n) e f p h = omega (
  arith,
  ltb→lt _ _ (passes-lt _ 4095 e (omega arith) mono_table),
  metric_decode_mono n (e + 1) f (omega arith) h,
)

-- `e` is the least code whose metric is at least `m`.
pub record IsLeastCode (m e : ℕ) : Type 0 where
  pub in_range : e < 4096
  pub enough : m ≤ metric_decode e
  pub least : (f : ℕ) → f < e → metric_decode f < m

mul_mono : (x y s : ℕ) → x ≤ y → x * s ≤ y * s
mul_mono x y s h = grind arith

module _ {d : ℕ} {s : Scaled} (h : Shrunk 0 d s) (lo : 257 ≤ d) (hi : d ≤ 2 ^ 24) where
  k-le : h.k ≤ 15
  k-le = elim (Bool-cases (leb h.k 15)) [
    | inl le ↦ leb→le _ _ le
    | inr gt ↦ absurd (too_far h.needed (ground arith))
  ]
    where
      too_far :
          ((h.k ≡ 0) × (s.decoded ≡ d)) ⊎ ((j : ℕ) × (h.k ≡ suc j) × (512 * 2 ^ j < d))
          → 15 < h.k
          → ⊥
      too_far (inl (e, _)) gt = omega arith
      too_far (inr (j, e, lt)) gt =
          omega (arith, pow-le-pow_right {n = 2} (omega arith) {i = 15} {j = j} (omega arith))

  mantissa-ge : 257 ≤ s.decoded
  mantissa-ge = elim h.needed [
    | inl (_, e) ↦ omega arith
    | inr (j, e, lt) ↦
        let twice : h.scale ≡ 2 ^ j * 2 = h.scale_is ∙ ap (λ t. 2 ^ t) e ∙ pow-suc 2 j in
        let up : d ≤ s.decoded * (2 ^ j * 2) = rw twice at h.above in wide (2 ^ j) lt up
  ]
    where
      wide : (p : ℕ) → 512 * p < d → d ≤ s.decoded * (p * 2) → 257 ≤ s.decoded
      wide p lt up = elim (Bool-cases (leb 257 s.decoded)) [
        | inl ge ↦ leb→le _ _ ge
        | inr small ↦ absurd (omega (arith, mul_mono s.decoded 256 (p * 2) (ground arith)))
      ]

  value_at : (b : ℕ) → b < 256 → metric_decode (256 * h.k + b) ≡ (257 + b) * h.scale - 256
  value_at b hb = metric_decode-digits h.k b (omega (arith, k-le)) hb ∙ rw h.scale_is refl

  -- The value of the code before.
  before : (b : ℕ) → s.decoded ≡ 257 + b → (f : ℕ) → f < 256 * h.k + b → metric_decode f < d - 256
  before (suc b) e f lt =
      let down : (257 + b) * h.scale < d =
        omega (arith, h.below, mul_mono (257 + b + 1) s.decoded h.scale (omega arith)) in
      let pos : 1 ≤ h.scale = omega (arith, h.scale_is, one-le-pow h.k 2 (omega arith)) in
      omega (
        arith,
        metric_decode_mono (256 * h.k + b - f) f (256 * h.k + b) (omega arith)
            (omega (arith, k-le, h.small)),
        value_at b (omega (arith, h.small)),
      )
  before zero e f lt = elim h.needed [
    | inl (ek, _) ↦ absurd (omega arith)
    | inr (j, ek, big) ↦
        let top : f ≤ 256 * j + 255 = omega arith in
        let j-le : j < 15 = omega (arith, k-le) in
        omega (
          arith,
          metric_decode_mono (256 * j + 255 - f) f (256 * j + 255) (omega arith) (omega arith),
          metric_decode-digits j 255 (omega arith) (omega arith),
        )
  ]

  pub shrunk_lem : IsLeastCode (d - 256) (pack_metric s)
  unfolding pack_metric
  shrunk_lem =
      let b = s.decoded - 257 in
      let code : pack_metric s ≡ 256 * h.k + b =
        omega (arith, mantissa-ge, h.small, h.exponent, k-le) in
      let exact : s.decoded ≡ 257 + b = omega (arith, mantissa-ge) in
      rw code (record {
        in_range = omega (arith, h.small, k-le);
        enough = omega (
          arith,
          h.above,
          value_at b (omega (arith, h.small)),
          ap (λ (t : ℕ). t * h.scale) exact,
        );
        least = before b exact;
      })

-- For every metric from the least to the greatest that has a code, the encoder returns the least
-- code whose decoded metric is not lower.
pub metric_encode-IsLeastCode : (m : ℕ) → 1 ≤ m → m ≤ metric_max → IsLeastCode m (metric_encode m)
unfolding metric_encode
metric_encode-IsLeastCode m lo hi =
    let e0 : (ltb m 1 || leb 0xff_ffff m) ≡ false = ground arith in
    let e1 : ltb metric_max m ≡ false = ground arith in
    let e2 : u32 (m + 256) ≡ m + 256 = omega arith in
    let e3 : m + 256 - 256 ≡ m = omega arith in
    rw (e0, e1, e2)
      (rw e3 at (
        shrunk_lem (shrink-Shrunk 32 0 (m + 256) (omega arith) (omega arith) (omega arith))
          (omega arith) (omega arith)))

-- Every code of twelve bits is encoded again to itself.
pub metric_encode-metric_decode : (e : ℕ) → e < 4096 → metric_encode (metric_decode e) ≡ e
metric_encode-metric_decode e h = (==_iff _ _).0 (passes-lt _ 4096 e h round_trip_table)
