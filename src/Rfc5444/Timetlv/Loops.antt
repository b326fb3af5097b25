-- ===== src/Rfc5444/Timetlv/Loops.antt =====
-- What the two scaling loops of the time encoder leave behind (src-api/rfc5444/rfc5444.c).
use native.Mathlib.Nat.{pow-suc}
use oonf_api.Base.{
  ℕ, zero, suc, ◌+◌, ◌*◌, ◌/◌, ◌^◌, ◌≤◌, ◌<◌, ◌≡◌, refl, ◌⊎◌, inl, inr, Bool-cases, ltb, arith, ap,
}
use oonf_api.Base.Word.{u32, u64, sub32}
use oonf_api.Rfc5444.Timetlv.{Scaled, halve_up, double_up}

-- The value is divided by `2 ^ k` and rounded up, and no earlier round could have stopped.
pub record Halved (b d : ℕ) (s : Scaled) : Type 0 where
  pub k : ℕ
  pub scale : ℕ
  pub scale_is : scale ≡ 2 ^ k
  pub exponent : s.b ≡ b + k
  pub above : d ≤ s.decoded * scale
  pub below : s.decoded * scale < d + scale
  pub small : s.decoded ≤ 1875
  pub needed : ((k ≡ 0) × (s.decoded ≡ d)) ⊎ ((j : ℕ) × (k ≡ suc j) × (1875 * 2 ^ j < d))

module _ {b d : ℕ} {s : Scaled} where
  Halved-next : 1875 < d → Halved (b + 1) ((d + 1) / 2) s → Halved b d s
  Halved-next big h = record {
    k = suc h.k;
    scale = h.scale * 2;
    scale_is = omega (arith, h.scale_is, pow-suc 2 h.k);
    exponent = omega (arith, h.exponent);
    above = omega (arith, h.above);
    below = omega (arith, h.below);
    small = h.small;
    needed = inr (h.k, refl, longer h.needed);
  }
    where
      longer :
          ((h.k ≡ 0) × (s.decoded ≡ (d + 1) / 2))
            ⊎ ((j : ℕ) × (h.k ≡ suc j) × (1875 * 2 ^ j < (d + 1) / 2))
          → 1875 * 2 ^ h.k < d
      longer (inl (e, _)) = rw e (omega arith)
      longer (inr (j, e, lt)) = rw e (omega (arith, pow-suc 2 j))

halve_up_step :
    (fuel b d : ℕ)
    → 1875 < d
    → b + 1 < 2 ^ 32
    → d + 1 < 2 ^ 64
    → halve_up (suc fuel) b d ≡ halve_up fuel (b + 1) ((d + 1) / 2)
unfolding halve_up
halve_up_step fuel b d big hb hd =
    let eb : u32 (b + 1) ≡ b + 1 = omega arith in
    let ed : u64 (d + 1) / 2 ≡ (d + 1) / 2 = omega arith in rw eb (rw ed (ground arith))

halve_up_stop : (fuel b d : ℕ) → d ≤ 1875 → halve_up fuel b d ≡ record { b = b; decoded = d }
unfolding halve_up
halve_up_stop zero b d h = refl
halve_up_stop (suc fuel) b d h = ground arith

Halved-here : (fuel b d : ℕ) → d ≤ 1875 → Halved b d (halve_up fuel b d)
Halved-here fuel b d small = rw (halve_up_stop fuel b d small) (record {
  k = 0;
  scale = 1;
  scale_is = refl;
  exponent = omega arith;
  above = omega arith;
  below = omega arith;
  small = small;
  needed = inl (refl, refl);
})

-- With a round for each binary digit above 1875 the loop ends by its test.
pub halve_up-Halved :
    (fuel b d : ℕ)
    → d ≤ 1875 * 2 ^ fuel
    → b + fuel < 2 ^ 32
    → d + 1 < 2 ^ 64
    → Halved b d (halve_up fuel b d)
halve_up-Halved zero b d enough hb hd = Halved-here 0 b d (omega arith)
halve_up-Halved (suc fuel) b d enough hb hd = elim (Bool-cases (ltb 1875 d)) [
  | inl big ↦
      let far : 1875 < d = ground arith in
      let half : (d + 1) / 2 ≤ 1875 * 2 ^ fuel = omega (arith, pow-suc 2 fuel) in
      rw (halve_up_step fuel b d far (omega arith) hd) (
        Halved-next far
          (halve_up-Halved fuel (b + 1) ((d + 1) / 2) half (omega arith) (omega arith)))
  | inr small ↦ Halved-here (suc fuel) b d (ground arith)
]

-- The value is multiplied by `2 ^ k`, exactly.
pub record Doubled (b d : ℕ) (s : Scaled) : Type 0 where
  pub k : ℕ
  pub scale : ℕ
  pub scale_is : scale ≡ 2 ^ k
  pub exponent : s.b + k ≡ b
  pub exact : s.decoded ≡ d * scale
  pub large : 1000 ≤ s.decoded
  pub limit : (k ≡ 0) ⊎ (s.decoded < 2000)

double_up_step :
    (fuel b d : ℕ)
    → d < 1000
    → suc b < 2 ^ 32
    → double_up (suc fuel) (suc b) d ≡ double_up fuel b (d * 2)
unfolding double_up
double_up_step fuel b d small hb =
    let eb : sub32 (suc b) 1 ≡ b = omega arith in
    let ed : u64 (d * 2) ≡ d * 2 = omega arith in rw eb (rw ed (ground arith))

double_up_stop : (fuel b d : ℕ) → 1000 ≤ d → double_up fuel b d ≡ record { b = b; decoded = d }
unfolding double_up
double_up_stop zero b d h = refl
double_up_stop (suc fuel) b d h = ground arith

Doubled-here : (fuel b d : ℕ) → 1000 ≤ d → Doubled b d (double_up fuel b d)
Doubled-here fuel b d large = rw (double_up_stop fuel b d large) (record {
  k = 0;
  scale = 1;
  scale_is = refl;
  exponent = omega arith;
  exact = omega arith;
  large = large;
  limit = inl refl;
})

Doubled-next : {b d : ℕ} {s : Scaled} → d < 1000 → Doubled b (d * 2) s → Doubled (suc b) d s
Doubled-next {d} {s} small h = record {
  k = suc h.k;
  scale = h.scale * 2;
  scale_is = omega (arith, h.scale_is, pow-suc 2 h.k);
  exponent = omega (arith, h.exponent);
  exact = omega (arith, h.exact);
  large = h.large;
  limit = inr (last h.limit);
}
  where
    last : (h.k ≡ 0) ⊎ (s.decoded < 2000) → s.decoded < 2000
    last (inl e) =
        let one : h.scale ≡ 1 = rw e at h.scale_is in
        let twice : s.decoded ≡ d * 2 * 1 = rw one at h.exact in omega arith
    last (inr lt) = lt

-- From an exponent high enough the loop ends by its test, before the exponent is used up.
pub double_up-Doubled :
    (fuel b d : ℕ) → 1000 ≤ d * 2 ^ b → b ≤ fuel → b < 2 ^ 32 → Doubled b d (double_up fuel b d)
double_up-Doubled fuel zero d enough hb small = Doubled-here fuel 0 d (omega arith)
double_up-Doubled zero (suc b) d enough hb small = absurd (omega arith)
double_up-Doubled (suc fuel) (suc b) d enough hb small = elim (Bool-cases (ltb d 1000)) [
  | inl low ↦
      let below : d < 1000 = ground arith in
      let enough' : 1000 ≤ d * 2 * 2 ^ b = omega (arith, ap (λ (t : ℕ). d * t) (pow-suc 2 b)) in
      rw (double_up_step fuel b d below small)
        (Doubled-next below (double_up-Doubled fuel b (d * 2) enough' (omega arith) (omega arith)))
  | inr high ↦ Doubled-here (suc fuel) (suc b) d (ground arith)
]
