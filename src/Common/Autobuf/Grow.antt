-- ===== src/Common/Autobuf/Grow.antt =====
-- The enlarged size of a buffer (src-api/common/autobuf.c).
use native.Mathlib.Nat.{pow-suc, one-le-pow}
use oonf_api.Base.{
  ℕ, zero, suc, ◌+◌, ◌-◌, ◌*◌, ◌/◌, ◌%◌, ◌^◌, ◌≤◌, ◌<◌, ◌≡◌, refl, ap, ◌∙◌, bit_and, arith,
}
use oonf_api.Base.Bits.{bit_and_step}
use oonf_api.Common.Autobuf.{round_up}

half-even : (x m : ℕ) → bit_and x (m * 2) ≡ bit_and (x / 2) m * 2
half-even x m =
    let half : m * 2 / 2 ≡ m = omega arith in
    let step : bit_and x (m * 2) ≡ bit_and (x / 2) (m * 2 / 2) * 2 =
      omega (arith, bit_and_step x (m * 2)) in
    rw half at step

-- `x >> k`
abbrev shr : ℕ → ℕ → ℕ
shr zero x = x
shr (suc k) x = shr k (x / 2)

bit_and-high : (k x m : ℕ) → bit_and x (m * 2 ^ k) ≡ bit_and (shr k x) m * 2 ^ k
bit_and-high zero x m = let one : m * 2 ^ 0 ≡ m = omega arith in rw one (omega arith)
bit_and-high (suc k) x m =
    let twice : m * 2 ^ suc k ≡ m * 2 ^ k * 2 =
      omega (arith, ap (λ (t : ℕ). m * t) (pow-suc 2 k)) in
    rw twice (
      omega (
        arith,
        half-even x (m * 2 ^ k),
        bit_and-high k (x / 2) m,
        ap (λ (t : ℕ). bit_and (shr k (x / 2)) m * t) (pow-suc 2 k),
      ))

shr_bounds : (k x : ℕ) → (shr k x * 2 ^ k ≤ x) × (x < shr k x * 2 ^ k + 2 ^ k)
shr_bounds zero x = omega arith
shr_bounds (suc k) x =
    let h = shr_bounds k (x / 2) in
    let e = ap (λ (t : ℕ). shr k (x / 2) * t) (pow-suc 2 k) in
    (omega (arith, h.0, e), omega (arith, h.1, e, pow-suc 2 k))

bit_and-low : (j z : ℕ) → z < 2 ^ j → bit_and z (2 ^ j - 1) ≡ z
bit_and-low zero z h = let e : z ≡ 0 = omega arith in rw e refl
bit_and-low (suc j) z h =
    let p : 1 ≤ 2 ^ j = one-le-pow j 2 (omega arith) in
    let half : (2 ^ suc j - 1) / 2 ≡ 2 ^ j - 1 = omega (arith, pow-suc 2 j) in
    let rest : bit_and (z / 2) ((2 ^ suc j - 1) / 2) ≡ z / 2 =
      rw half (bit_and-low j (z / 2) (omega (arith, pow-suc 2 j))) in
    omega (arith, bit_and_step z (2 ^ suc j - 1), rest, pow-suc 2 j)

pow-split : (j k : ℕ) → 2 ^ (j + k) ≡ 2 ^ j * 2 ^ k
pow-split j zero = let e : j + 0 ≡ j = omega arith in rw e (omega arith)
pow-split j (suc k) =
    let e : j + suc k ≡ suc (j + k) = omega arith in
    rw e (omega (arith, pow-suc 2 (j + k), pow-split j k, ap (λ (t : ℕ). 2 ^ j * t) (pow-suc 2 k)))

complement : (a b m : ℕ) → 1 ≤ a → 1 ≤ b → m ≡ a * b → m - 1 - (b - 1) ≡ (a - 1) * b
complement zero b m ha hb h = absurd (omega arith)
complement (suc a) b m ha hb h = let e : suc a - 1 ≡ a = omega arith in rw e (omega arith)

-- With a page of a power of two the size is rounded up to the next multiple of the page.
pub round_up_lem :
    (val k : ℕ)
    → k ≤ 64
    → val + 2 ^ k ≤ 2 ^ 64
    → (val ≤ round_up val (2 ^ k))
      × (round_up val (2 ^ k) < val + 2 ^ k)
      × (q : ℕ) × (round_up val (2 ^ k) ≡ q * 2 ^ k)
unfolding round_up
round_up_lem val k le fits =
    let j = 64 - k in
    let x = val + 2 ^ k - 1 in
    let p : 1 ≤ 2 ^ k = one-le-pow k 2 (omega arith) in
    let q : 1 ≤ 2 ^ j = one-le-pow j 2 (omega arith) in
    let whole : 2 ^ 64 ≡ 2 ^ j * 2 ^ k =
      (let e : 64 ≡ j + k = omega arith in ap (λ t. 2 ^ t) e) ∙ pow-split j k in
    let mask : 2 ^ 64 - 1 - (2 ^ k - 1) ≡ (2 ^ j - 1) * 2 ^ k =
      complement (2 ^ j) (2 ^ k) (2 ^ 64) q p whole in
    let cast : x % 2 ^ 64 ≡ x = omega arith in
    let bounds = shr_bounds k x in
    let small : shr k x < 2 ^ j =
      below (shr k x) (2 ^ j) (2 ^ k) (omega (arith, whole, bounds.0)) in
    let value : bit_and x ((2 ^ j - 1) * 2 ^ k) ≡ shr k x * 2 ^ k =
      bit_and-high k x (2 ^ j - 1) ∙ ap (λ (t : ℕ). t * 2 ^ k) (bit_and-low j (shr k x) small) in
    rw (cast, mask, value) (omega (arith, bounds.1), omega (arith, bounds.0), shr k x, refl)
  where
    below : (s m p : ℕ) → s * p < m * p → s < m
    below s m p h = grind arith
