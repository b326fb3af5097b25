-- ===== src/Rfc5444/Timetlv/Seconds.antt =====
-- The encoder's code for a time of a second or more (src-api/rfc5444/rfc5444.c).
use native.Mathlib.Nat.{pow-suc, one-le-pow, pow-le-pow_right}
use oonf_api.Base.{
  ℕ, zero, suc, ◌+◌, ◌*◌, ◌^◌, ◌≤◌, ◌<◌, ◌≡◌, refl, ◌⊎◌, inl, inr, Bool-cases, leb, leb→le, arith,
  ap, ◌∙◌,
}
use oonf_api.Rfc5444.Timetlv.{Scaled, pack_time}
use oonf_api.Rfc5444.Timetlv.{timetlv_max}
use oonf_api.Rfc5444.Timetlv.Loops.{Halved}
use oonf_api.Rfc5444.Timetlv.Values.{time_value, mul_mono, time_value_low, time_value_high}
use oonf_api.Rfc5444.Timetlv.LeastCode.{
  IsLeastCode, IsLeastCode-digits, IsLeastCode-carry, eighths, pack_time-eighths,
}

-- From a second up: the mantissa was halved `k` times.
module _ {d : ℕ} {s : Scaled} (h : Halved 10 d s) (lo : 1000 ≤ d) (hi : d ≤ timetlv_max) where
  k-le : h.k ≤ 21
  k-le = elim (Bool-cases (leb h.k 21)) [
    | inl le ↦ leb→le _ _ le
    | inr gt ↦ absurd (too_far h.needed (ground arith))
  ]
    where
      too_far :
          ((h.k ≡ 0) × (s.decoded ≡ d)) ⊎ ((j : ℕ) × (h.k ≡ suc j) × (1875 * 2 ^ j < d))
          → 21 < h.k
          → ⊥
      too_far (inl (e, _)) gt = omega arith
      too_far (inr (j, e, lt)) gt =
          omega (arith, pow-le-pow_right {n = 2} (omega arith) {i = 21} {j = j} (omega arith))

  scale-le : h.scale ≤ 2 ^ 21
  scale-le =
      omega (arith, h.scale_is, pow-le-pow_right {n = 2} (omega arith) {i = h.k} {j = 21} k-le)

  scale_pos : 0 < h.scale
  scale_pos = omega (arith, h.scale_is, one-le-pow h.k 2 (omega arith))

  mantissa-ge : 938 ≤ s.decoded
  mantissa-ge = elim h.needed [
    | inl (_, e) ↦ omega arith
    | inr (j, e, lt) ↦
        let twice : h.scale ≡ 2 ^ j * 2 = h.scale_is ∙ ap (λ t. 2 ^ t) e ∙ pow-suc 2 j in
        let up : d ≤ s.decoded * (2 ^ j * 2) = rw twice at h.above in
        wide (2 ^ j) (one-le-pow j 2 (omega arith)) lt up
  ]
    where
      wide : (p : ℕ) → 1 ≤ p → 1875 * p < d → d ≤ s.decoded * (p * 2) → 938 ≤ s.decoded
      wide p pos lt up = elim (Bool-cases (leb 938 s.decoded)) [
        | inl ge ↦ leb→le _ _ ge
        | inr small ↦ absurd (omega (arith, mul_mono s.decoded 937 (p * 2) (ground arith)))
      ]

  -- At the last exponent the eighths stop at 6, so the code of infinity is not used.
  top_mantissa : h.k ≡ 21 → s.decoded < 1751
  top_mantissa e =
      let full : h.scale ≡ 2 ^ 21 = h.scale_is ∙ ap (λ t. 2 ^ t) e in
      let down : s.decoded * 2 ^ 21 < d + 2 ^ 21 = rw full at h.below in omega arith

  high-up : {a : ℕ} → eighths s.decoded ≡ a → d ≤ (1000 + 125 * a) * h.scale
  high-up {a} ea =
      omega (arith, h.above, mul_mono s.decoded (1000 + 125 * a) h.scale (omega (arith, h.small)))

  high-down : {a : ℕ} → eighths s.decoded ≡ suc a → (1000 + 125 * a) * h.scale < d
  high-down {a} ea =
      omega (arith, h.below, mul_mono (1000 + 125 * a + 1) s.decoded h.scale (omega arith))

  value_at : (a : ℕ) → a < 8 → time_value (10 + h.k) a ≡ (1000 + 125 * a) * h.scale
  value_at a ha =
      time_value_high h.k a ha (omega (arith, h.scale_is, scale-le)) ∙ rw h.scale_is refl

  high_cases : (a : ℕ) → eighths s.decoded ≡ a → IsLeastCode d (8 * (10 + h.k) + a)
  high_cases (suc a) ea =
      let bound : a < 7 = omega (arith, h.small) in
      let top : 8 * (10 + h.k) + suc a < 255 = elim (Bool-cases (leb h.k 20)) [
        | inl le ↦ ground arith
        | inr gt ↦
            let e : h.k ≡ 21 = ground (arith, k-le) in
            let m : s.decoded < 1751 = top_mantissa e in omega arith
      ] in
      IsLeastCode-digits d (10 + h.k) a (omega arith) top
        (omega (arith, value_at (suc a) (omega arith), high-up ea))
        (omega (arith, value_at a (omega arith), high-down ea))
  high_cases zero ea = elim h.needed [
    | inl (ek, em) ↦
        let b10 : 10 + h.k ≡ suc 9 = omega arith in
        let v : time_value (suc 9) 0 ≡ 1000 = time_value_low 10 0 0 (omega arith) in
        let w : time_value 9 7 ≡ 937 = time_value_low 9 1 7 (omega arith) in
        rw b10 (IsLeastCode-carry d 9 (omega arith) (omega arith) (omega arith))
    | inr (j, ek, lt) ↦
        let b : 10 + h.k ≡ suc (10 + j) = omega arith in
        let p : 2 ^ j ≤ 2 ^ 21 =
          pow-le-pow_right {n = 2} (omega arith) {i = j} {j = 21} (omega (arith, k-le)) in
        rw b (
          IsLeastCode-carry d (10 + j) (omega (arith, k-le))
            (rw (← b) (omega (arith, value_at 0 (omega arith), high-up ea)))
            (omega (arith, time_value_high j 7 (omega arith) p)))
  ]

  pub high_lem : IsLeastCode d (pack_time s)
  high_lem =
      let packed : pack_time s ≡ 8 * s.b + eighths s.decoded =
        pack_time-eighths s mantissa-ge (omega (arith, h.small)) range in
      rw (packed, h.exponent) (high_cases (eighths s.decoded) refl)
    where
      range : s.b < 31 ⊎ ((s.b ≡ 31) × (s.decoded < 1875))
      range = elim (Bool-cases (leb h.k 20)) [
        | inl le ↦ inl (ground (arith, h.exponent))
        | inr gt ↦
            let e : h.k ≡ 21 = ground (arith, k-le) in
            inr (omega (arith, h.exponent), omega (arith, top_mantissa e))
      ]
