-- ===== src/Rfc5444/Timetlv/Subseconds.antt =====
-- The encoder's code for a time below a second (src-api/rfc5444/rfc5444.c).
use native.Mathlib.Nat.{pow-suc, one-le-pow}
use oonf_api.Base.{
  ℕ, zero, suc, ◌+◌, ◌*◌, ◌/◌, ◌^◌, ◌≤◌, ◌<◌, ◌≡◌, refl, inl, inr, Bool-cases, ltb, arith, ap, ◌∙◌,
}
use oonf_api.Rfc5444.Timetlv.{Scaled, pack_time}
use oonf_api.Rfc5444.Timetlv.Loops.{Doubled}
use oonf_api.Rfc5444.Timetlv.Values.{time_value, le-div, div-lt, time_value_low}
use oonf_api.Rfc5444.Timetlv.LeastCode.{
  IsLeastCode, IsLeastCode-digits, IsLeastCode-carry, eighths, pack_time-eighths,
}

-- Below a second the mantissa was doubled `k` times.
module _ {d : ℕ} {s : Scaled} (h : Doubled 10 d s) (pos : 1 ≤ d) (hi : d < 1000) where
  doubled : (k : ℕ) → h.k ≡ k → s.decoded ≡ d * 2 ^ k
  doubled k e = h.exact ∙ ap (λ t. d * t) (h.scale_is ∙ ap (λ t. 2 ^ t) e)

  mantissa-lt : s.decoded < 2000
  mantissa-lt = elim h.limit [ inl e ↦ absurd (omega (arith, h.large, doubled 0 e)) | inr lt ↦ lt ]

  low-up : (x k : ℕ) → h.k ≡ k → s.decoded ≤ x → d ≤ x / 2 ^ k
  low-up x k e le = le-div d x (2 ^ k) (one-le-pow k 2 (omega arith)) (omega (arith, doubled k e))

  low-down : (x k : ℕ) → h.k ≡ k → x < s.decoded → x / 2 ^ k < d
  low-down x k e lt = div-lt d x (2 ^ k) (one-le-pow k 2 (omega arith)) (omega (arith, doubled k e))

  value_at : (b a : ℕ) → s.b ≡ b → time_value b a ≡ (1000 + 125 * a) / 2 ^ h.k
  value_at b a e = time_value_low b h.k a (omega (arith, h.exponent))

  -- One exponent further down, where the doubled mantissa would be the exact second.
  previous-lt : (b : ℕ) → s.b ≡ suc b → s.decoded < 1001 → time_value b 7 < d
  previous-lt b e small = rw (time_value_low b (suc h.k) 7 (omega (arith, h.exponent))) (
      div-lt d 1875 (2 ^ suc h.k) (one-le-pow (suc h.k) 2 (omega arith))
        (omega (arith, h.large, doubled h.k refl, ap (λ (t : ℕ). d * t) (pow-suc 2 h.k))))

  -- One exponent further up, where the mantissa rounds up to the next power.
  next-le : (b : ℕ) → s.b ≡ b → d ≤ time_value (suc b) 0
  next-le b e = by_k h.k refl
    where
      by_k : (k : ℕ) → h.k ≡ k → d ≤ time_value (suc b) 0
      by_k zero ek = absurd (omega (arith, h.large, doubled 0 ek))
      by_k (suc j) ek = rw (time_value_low (suc b) j 0 (omega (arith, h.exponent))) (
          le-div d 1000 (2 ^ j) (one-le-pow j 2 (omega arith))
            (omega (arith, mantissa-lt, doubled (suc j) ek, ap (λ (t : ℕ). d * t) (pow-suc 2 j))))

  low_cases : (b a : ℕ) → s.b ≡ b → eighths s.decoded ≡ a → IsLeastCode d (8 * b + a)
  low_cases b (suc a) eb ea = elim (Bool-cases (ltb a 7)) [
    | inl small ↦
        let bound : suc a < 8 = ground arith in
        let top : 8 * b + suc a < 255 = omega (arith, h.exponent) in
        IsLeastCode-digits d b a bound top
          (rw (value_at b (suc a) eb) (low-up (1000 + 125 * suc a) h.k refl (omega arith)))
          (rw (value_at b a eb) (low-down (1000 + 125 * a) h.k refl (omega arith)))
    | inr last ↦
        let e : a ≡ 7 = ground (arith, mantissa-lt) in
        let top : 8 * suc b < 255 = omega (arith, h.exponent) in
        let code : 8 * b + suc a ≡ 8 * suc b + 0 = omega arith in
        rw code (
          IsLeastCode-carry d b top (next-le b eb)
            (rw (value_at b 7 eb) (low-down 1875 h.k refl (omega arith))))
  ]
  low_cases zero zero eb ea =
      let ten : h.k ≡ 10 = omega (arith, h.exponent) in
      absurd (omega (arith, h.large, doubled 10 ten))
  low_cases (suc b) zero eb ea =
      let small : s.decoded < 1001 = omega (arith, h.large) in
      let top : 8 * suc b < 255 = omega (arith, h.exponent) in
      IsLeastCode-carry d b top (rw (value_at (suc b) 0 eb) (low-up 1000 h.k refl (omega arith)))
        (previous-lt b eb small)

  pub low_lem : IsLeastCode d (pack_time s)
  low_lem =
      let packed : pack_time s ≡ 8 * s.b + eighths s.decoded =
        pack_time-eighths s (omega (arith, h.large)) mantissa-lt
          (inl (omega (arith, h.exponent))) in
      rw packed (low_cases s.b (eighths s.decoded) refl refl)
