-- ===== src/Base/Bits.antt =====
-- Single bits of a machine word: `&`, `|` and `<<` with a mask of one bit, at every position.
use Prim.Native.Nat.{ℕ, zero, suc, ◌+◌, ◌*◌, ◌/◌, ◌%◌, ◌^◌, ◌-◌, ◌≤◌, ◌<◌, min, max}
use Prim.Native.Nat.{bit_and, bit_or, digits, bitwise, bit_and-bitwise, bit_or-bitwise}
use mathlib.Core.Path.{◌≡◌, refl, ap, ◌∙◌}
use native.Mathlib.Nat.{pow-suc, one-le-pow}
use native.Mathlib.Omega.{arith}
use oonf_api.Base.Tests.{◌==◌, ltb, if◌then◌else◌}

-- Two amounts of fuel that both reach the last digit of `x` give the same number.
enough_fuel :
    (last : ℕ → ℕ) (digit : ℕ → ℕ → ℕ) (p q x y : ℕ)
    → x ≤ min p q
    → digits last digit p x y ≡ digits last digit q x y
enough_fuel last digit (suc p) (suc q) (suc x) y h =
    ap (λ t. t * 2 + digit (suc x % 2) (y % 2))
      (enough_fuel last digit p q (suc x / 2) (y / 2) (omega arith))
enough_fuel last digit (suc p) zero (suc x) y h = absurd (omega arith)
enough_fuel last digit zero q (suc x) y h = absurd (omega arith)
enough_fuel last digit (suc p) (suc q) zero y h = refl
enough_fuel last digit (suc p) zero zero y h = refl
enough_fuel last digit zero (suc q) zero y h = refl
enough_fuel last digit zero zero zero y h = refl

bitwise-suc :
    (last : ℕ → ℕ) (digit : ℕ → ℕ → ℕ) (x y : ℕ)
    → bitwise last digit (suc x) y
      ≡ bitwise last digit (suc x / 2) (y / 2) * 2 + digit (suc x % 2) (y % 2)
bitwise-suc last digit x y =
    ap (λ t. t * 2 + digit (suc x % 2) (y % 2))
      (enough_fuel last digit x (suc x / 2) (suc x / 2) (y / 2) (omega arith))

-- The lowest bit of a conjunction, and of a disjunction, apart from the others.
pub bit_and_step : (x y : ℕ) → bit_and x y ≡ min (x % 2) (y % 2) + bit_and (x / 2) (y / 2) * 2
bit_and_step (suc x) y =
    bit_and-bitwise (suc x) y
    ∙ omega (arith, bitwise-suc (λ y. 0) min x y, bit_and-bitwise (suc x / 2) (y / 2))
bit_and_step zero y = omega (arith, bit_and-bitwise zero y, bit_and-bitwise zero (y / 2))

pub bit_or_step : (x y : ℕ) → bit_or x y ≡ max (x % 2) (y % 2) + bit_or (x / 2) (y / 2) * 2
bit_or_step (suc x) y =
    bit_or-bitwise (suc x) y
    ∙ omega (arith, bitwise-suc (λ y. y) max x y, bit_or-bitwise (suc x / 2) (y / 2))
bit_or_step zero y = omega (arith, bit_or-bitwise zero y, bit_or-bitwise zero (y / 2))

-- The bit at a position, 0 or 1.
abbrev pub nth_bit : ℕ → ℕ → ℕ
nth_bit zero x = x % 2
nth_bit (suc k) x = nth_bit k (x / 2)

pub nth_bit-lt : (k x : ℕ) → nth_bit k x < 2
nth_bit-lt zero x = omega arith
nth_bit-lt (suc k) x = nth_bit-lt k (x / 2)

pub nth_bit-bit_or : (k x y : ℕ) → nth_bit k (bit_or x y) ≡ max (nth_bit k x) (nth_bit k y)
nth_bit-bit_or zero x y = omega (arith, bit_or_step x y)
nth_bit-bit_or (suc k) x y =
    let halves : bit_or x y / 2 ≡ bit_or (x / 2) (y / 2) = omega (arith, bit_or_step x y) in
    rw halves (nth_bit-bit_or k (x / 2) (y / 2))

pub nth_bit-bit_and : (k x y : ℕ) → nth_bit k (bit_and x y) ≡ min (nth_bit k x) (nth_bit k y)
nth_bit-bit_and zero x y = omega (arith, bit_and_step x y)
nth_bit-bit_and (suc k) x y =
    let halves : bit_and x y / 2 ≡ bit_and (x / 2) (y / 2) = omega (arith, bit_and_step x y) in
    rw halves (nth_bit-bit_and k (x / 2) (y / 2))

nth_bit-zero : (k : ℕ) → nth_bit k 0 ≡ 0
nth_bit-zero zero = refl
nth_bit-zero (suc k) = nth_bit-zero k

half-pow-suc : (n : ℕ) → 2 ^ suc n / 2 ≡ 2 ^ n
half-pow-suc n = omega (arith, pow-suc 2 n)

-- `1 << n` has exactly the bit `n`.
pub nth_bit-pow : (k n : ℕ) → nth_bit k (2 ^ n) ≡ (if k == n then 1 else 0)
nth_bit-pow zero zero = refl
nth_bit-pow zero (suc n) = ground (arith, pow-suc 2 n)
nth_bit-pow (suc k) zero = ground (arith, nth_bit-zero k)
nth_bit-pow (suc k) (suc n) = rw (half-pow-suc n) (nth_bit-pow k n ∙ ground arith)

no_bits : (bound x : ℕ) → x ≤ bound → bit_and x 0 ≡ 0
no_bits (suc bound) (suc x) h =
    let upper : bit_and (suc x / 2) (0 / 2) ≡ 0 = no_bits bound (suc x / 2) (omega arith) in
    omega (arith, upper, bit_and_step (suc x) 0)
no_bits zero (suc x) h = absurd (omega arith)
no_bits bound zero h = refl

-- `x & (1 << n)` is the bit `n` in place.
pub bit_and-pow : (n x : ℕ) → bit_and x (2 ^ n) ≡ nth_bit n x * 2 ^ n
bit_and-pow zero x = omega (arith, bit_and_step x 1, no_bits (x / 2) (x / 2) (omega arith))
bit_and-pow (suc n) x =
    let half : bit_and (x / 2) (2 ^ suc n / 2) ≡ nth_bit n (x / 2) * 2 ^ n =
      ap (bit_and (x / 2)) (half-pow-suc n) ∙ bit_and-pow n (x / 2) in
    omega (
      arith,
      half,
      bit_and_step x (2 ^ suc n),
      pow-suc 2 n,
      ap (λ (t : ℕ). nth_bit n (x / 2) * t) (pow-suc 2 n),
    )

-- A mask of low ones is a remainder.
pub bit_and-three : (x : ℕ) → bit_and x 3 ≡ x % 4
bit_and-three x = omega (arith, bit_and_step x 3, bit_and-pow 0 (x / 2))

pub bit_and-seven : (x : ℕ) → bit_and x 7 ≡ x % 8
bit_and-seven x = omega (arith, bit_and_step x 7, bit_and-three (x / 2))

pub bit_and-fifteen : (x : ℕ) → bit_and x 15 ≡ x % 16
bit_and-fifteen x = omega (arith, bit_and_step x 15, bit_and-seven (x / 2))

pub bit_and-byte_mask : (x : ℕ) → bit_and x 255 ≡ x % 256
bit_and-byte_mask x = omega (
  arith,
  bit_and_step x 255,
  bit_and_step (x / 2) 127,
  bit_and_step (x / 2 / 2) 63,
  bit_and_step (x / 2 / 2 / 2) 31,
  bit_and-fifteen (x / 2 / 2 / 2 / 2),
)

half-mod : (x m : ℕ) → 0 < m → x % (m * 2) / 2 ≡ x / 2 % m
half-mod x m h = grind arith

parity-mod : (x m : ℕ) → 0 < m → x % (m * 2) % 2 ≡ x % 2
parity-mod x m h = grind arith

-- A cast to a width keeps the bits below it.
pub nth_bit-mod : (k n x : ℕ) → k < n → nth_bit k (x % 2 ^ n) ≡ nth_bit k x
nth_bit-mod k zero x h = absurd (omega arith)
nth_bit-mod zero (suc n) x h = rw pow-suc (parity-mod x (2 ^ n) (one-le-pow n 2 (omega arith)))
nth_bit-mod (suc k) (suc n) x h =
    let half : x % 2 ^ suc n / 2 ≡ x / 2 % 2 ^ n =
      rw pow-suc (half-mod x (2 ^ n) (one-le-pow n 2 (omega arith))) in
    rw half (nth_bit-mod k n (x / 2) (omega arith))

-- `x << d` moves the bits up by `d`.
pub nth_bit-shift : (k d x : ℕ) → nth_bit k (x * 2 ^ d) ≡ (if ltb k d then 0 else nth_bit (k - d) x)
nth_bit-shift zero zero x = ground arith
nth_bit-shift (suc k) zero x =
    let one : x * 2 ^ 0 ≡ x = omega arith in
    let same : suc k - 0 ≡ suc k = omega arith in rw one (rw same (ground arith))
nth_bit-shift zero (suc d) x = ground (arith, ap (λ (t : ℕ). x * t) (pow-suc 2 d))
nth_bit-shift (suc k) (suc d) x =
    let half : x * 2 ^ suc d / 2 ≡ x * 2 ^ d = omega (arith, ap (λ (t : ℕ). x * t) (pow-suc 2 d)) in
    let less : ltb (suc k) (suc d) ≡ ltb k d = ground arith in
    let diff : suc k - suc d ≡ k - d = omega arith in rw (half, less, diff) (nth_bit-shift k d x)
