-- ===== src/Rfc5444/Metric/Shrink.antt =====
-- What the scaling loop of the metric encoder leaves behind
-- (src-api/rfc5444/rfc5444.c).
use native.Mathlib.Nat.{pow-suc}
use oonf_api.Base.{
  ℕ, zero, suc, ◌+◌, ◌*◌, ◌/◌, ◌^◌, ◌≤◌, ◌<◌, ◌≡◌, refl, ◌⊎◌, inl, inr, Bool-cases, ltb, arith,
}
use oonf_api.Base.Word.{u8, u32}
use oonf_api.Rfc5444.Metric.{Scaled, shrink}

-- The value is divided by `2 ^ k` and rounded up, and no earlier round could have stopped.
pub record Shrunk (a d : ℕ) (s : Scaled) : Type 0 where
  pub k : ℕ
  pub scale : ℕ
  pub scale_is : scale ≡ 2 ^ k
  pub exponent : s.a ≡ a + k
  pub above : d ≤ s.decoded * scale
  pub below : s.decoded * scale < d + scale
  pub small : s.decoded ≤ 512
  pub needed : ((k ≡ 0) × (s.decoded ≡ d)) ⊎ ((j : ℕ) × (k ≡ suc j) × (512 * 2 ^ j < d))

Shrunk-next : {a d : ℕ} {s : Scaled} → 512 < d → Shrunk (a + 1) ((d + 1) / 2) s → Shrunk a d s
Shrunk-next {d} {s} big h = record {
  k = suc h.k;
  scale = h.scale * 2;
  scale_is = omega (arith, h.scale_is, pow-suc 2 h.k);
  exponent = omega (arith, h.exponent);
  above = omega (arith, h.above);
  below = omega (arith, h.below);
  small = h.small;
  needed = inr (h.k, refl, longer h.needed);
}
  where
    longer :
        ((h.k ≡ 0) × (s.decoded ≡ (d + 1) / 2))
          ⊎ ((j : ℕ) × (h.k ≡ suc j) × (512 * 2 ^ j < (d + 1) / 2))
        → 512 * 2 ^ h.k < d
    longer (inl (e, _)) = rw e (omega arith)
    longer (inr (j, e, lt)) = rw e (omega (arith, pow-suc 2 j))

shrink_step :
    (fuel a d : ℕ)
    → 512 < d
    → a + 1 < 2 ^ 8
    → d + 1 < 2 ^ 32
    → shrink (suc fuel) a d ≡ shrink fuel (a + 1) ((d + 1) / 2)
unfolding shrink
shrink_step fuel a d big ha hd =
    let ea : u8 (a + 1) ≡ a + 1 = omega arith in
    let ed : u32 (d + 1) / 2 ≡ (d + 1) / 2 = omega arith in rw ea (rw ed (ground arith))

shrink_stop : (fuel a d : ℕ) → d ≤ 512 → shrink fuel a d ≡ record { a = a; decoded = d }
unfolding shrink
shrink_stop zero a d h = refl
shrink_stop (suc fuel) a d h = ground arith

Shrunk-here : (fuel a d : ℕ) → d ≤ 512 → Shrunk a d (shrink fuel a d)
Shrunk-here fuel a d small = rw (shrink_stop fuel a d small) (record {
  k = 0;
  scale = 1;
  scale_is = refl;
  exponent = omega arith;
  above = omega arith;
  below = omega arith;
  small = small;
  needed = inl (refl, refl);
})

-- With a round for each binary digit above 512 the loop ends by its test.
pub shrink-Shrunk :
    (fuel a d : ℕ)
    → d ≤ 512 * 2 ^ fuel
    → a + fuel < 2 ^ 8
    → d + 1 < 2 ^ 32
    → Shrunk a d (shrink fuel a d)
shrink-Shrunk zero a d enough ha hd = Shrunk-here 0 a d (omega arith)
shrink-Shrunk (suc fuel) a d enough ha hd = elim (Bool-cases (ltb 512 d)) [
  | inl big ↦
      let far : 512 < d = ground arith in
      let half : (d + 1) / 2 ≤ 512 * 2 ^ fuel = omega (arith, pow-suc 2 fuel) in
      rw (shrink_step fuel a d far (omega arith) hd) (
        Shrunk-next far (shrink-Shrunk fuel (a + 1) ((d + 1) / 2) half (omega arith) (omega arith)))
  | inr small ↦ Shrunk-here (suc fuel) a d (ground arith)
]
