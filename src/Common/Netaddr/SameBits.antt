-- ===== src/Common/Netaddr/SameBits.antt =====
-- Bits of a sequence of bytes, the highest bit of each byte first, as a prefix of an address
-- (src-api/common/netaddr.c) counts them.
use native.Mathlib.Nat.{pow-suc, one-le-pow}
use oonf_api.Base.Bits.{nth_bit}
use oonf_api.Base.{
  ℕ, zero, suc, ◌+◌, ◌-◌, ◌*◌, ◌/◌, ◌^◌, ◌≤◌, ◌<◌, ◌≡◌, ◌↔◌, sym, ap, ◌∙◌, true, false, ltb,
  if◌then◌else◌, List, [], ◌∷◌, Bool-cases, ◌⊎◌, inl, inr, arith,
}

-- The bit at a position, counted from the highest bit of the first byte.
pub bit_at : List ℕ → ℕ → ℕ
bit_at [] i = 0
bit_at (x ∷ xs) i = if ltb i 8 then nth_bit (7 - i) x else bit_at xs (i - 8)

abbrev pub SameBits : ℕ → List ℕ → List ℕ → Type 0
SameBits n xs ys = (i : ℕ) → i < n → bit_at xs i ≡ bit_at ys i

abbrev pub AreBytes : List ℕ → Type 0
AreBytes [] = Unit
AreBytes (x ∷ xs) = (x < 256) × AreBytes xs

eq_of_bits :
    (n x y : ℕ) → x < 2 ^ n → y < 2 ^ n → ((k : ℕ) → k < n → nth_bit k x ≡ nth_bit k y) → x ≡ y
eq_of_bits zero x y hx hy h = omega arith
eq_of_bits (suc n) x y hx hy h =
    let upper : x / 2 ≡ y / 2 =
      eq_of_bits n (x / 2) (y / 2) (omega (arith, pow-suc 2 n)) (omega (arith, pow-suc 2 n))
        (λ k lt. h (suc k) (omega arith)) in
    omega (arith, upper, h 0 (omega arith))

div-mul : (x m : ℕ) → 0 < m → x / (m * 2) ≡ x / 2 / m
div-mul x m h = grind arith

nth_bit-div : (d k x : ℕ) → nth_bit k (x / 2 ^ d) ≡ nth_bit (k + d) x
nth_bit-div zero k x =
    let one : x / 2 ^ 0 ≡ x = omega arith in let same : k + 0 ≡ k = omega arith in rw (one, same)
nth_bit-div (suc d) k x =
    let next : k + suc d ≡ suc (k + d) = omega arith in
    let half : x / 2 ^ suc d ≡ x / 2 / 2 ^ d =
      rw pow-suc (div-mul x (2 ^ d) (one-le-pow d 2 (omega arith))) in
    rw (half, next) (nth_bit-div d k (x / 2))

nth_bit-high : (n m x : ℕ) → x < 2 ^ n → n ≤ m → nth_bit m x ≡ 0
nth_bit-high zero zero x h le = omega arith
nth_bit-high zero (suc m) x h le = nth_bit-high zero m (x / 2) (omega arith) (omega arith)
nth_bit-high (suc n) zero x h le = absurd (omega arith)
nth_bit-high (suc n) (suc m) x h le =
    nth_bit-high n m (x / 2) (omega (arith, pow-suc 2 n)) (omega arith)

div-le : (x d : ℕ) → x / 2 ^ d ≤ x
div-le x d = grind arith

-- The first `b` bits of two bytes.
module _ (x y b : ℕ) (hx : x < 256) (hy : y < 256) (hb : b ≤ 8) where
  top_bits_of_eq :
      x / 2 ^ (8 - b) ≡ y / 2 ^ (8 - b) → (i : ℕ) → i < b → nth_bit (7 - i) x ≡ nth_bit (7 - i) y
  top_bits_of_eq e i lt =
      let place : b - 1 - i + (8 - b) ≡ 7 - i = omega arith in
      ap (λ k. nth_bit k x) (sym place)
      ∙ sym (nth_bit-div (8 - b) (b - 1 - i) x)
      ∙ ap (nth_bit (b - 1 - i)) e
      ∙ nth_bit-div (8 - b) (b - 1 - i) y
      ∙ ap (λ k. nth_bit k y) place

  eq_of_top_bits :
      ((i : ℕ) → i < b → nth_bit (7 - i) x ≡ nth_bit (7 - i) y) → x / 2 ^ (8 - b) ≡ y / 2 ^ (8 - b)
  eq_of_top_bits h =
      eq_of_bits 8 (x / 2 ^ (8 - b)) (y / 2 ^ (8 - b)) (omega (arith, div-le x (8 - b)))
        (omega (arith, div-le y (8 - b)))
        (λ k lt.
          nth_bit-div (8 - b) k x
          ∙ by_place k (Bool-cases (ltb k b))
          ∙ sym (nth_bit-div (8 - b) k y))
    where
      by_place :
          (k : ℕ)
          → (ltb k b ≡ true) ⊎ (ltb k b ≡ false)
          → nth_bit (k + (8 - b)) x ≡ nth_bit (k + (8 - b)) y
      by_place k (inl low) =
          let less : k < b = ground arith in
          let place : 7 - (b - 1 - k) ≡ k + (8 - b) = omega arith in
          rw place at (h (b - 1 - k) (omega arith))
      by_place k (inr high) =
          let ge : b ≤ k = ground arith in
          nth_bit-high 8 (k + (8 - b)) x hx (omega arith)
          ∙ sym (nth_bit-high 8 (k + (8 - b)) y hy (omega arith))

module _ (x y : ℕ) (xs ys : List ℕ) where
  -- Bits within the first byte, and behind it.
  bit_at-first : (i : ℕ) → i < 8 → bit_at (x ∷ xs) i ≡ nth_bit (7 - i) x
  unfolding bit_at
  bit_at-first i lt = ground arith

  bit_at-rest : (i : ℕ) → bit_at (x ∷ xs) (i + 8) ≡ bit_at xs i
  unfolding bit_at
  bit_at-rest i =
      let far : ltb (i + 8) 8 ≡ false = ground arith in
      let back : i + 8 - 8 ≡ i = omega arith in rw (far, back)

pub SameBits-first :
    (x y b : ℕ) (xs ys : List ℕ)
    → x < 256
    → y < 256
    → b ≤ 8
    → (x / 2 ^ (8 - b) ≡ y / 2 ^ (8 - b)) ↔ SameBits b (x ∷ xs) (y ∷ ys)
SameBits-first x y b xs ys hx hy hb = (
  λ e i lt.
      bit_at-first x y xs ys i (omega arith)
      ∙ top_bits_of_eq x y b hx hy hb e i lt
      ∙ sym (bit_at-first y x ys xs i (omega arith)),
  λ h. eq_of_top_bits x y b hx hy hb (λ i lt.
      sym (bit_at-first x y xs ys i (omega arith))
      ∙ h i lt
      ∙ bit_at-first y x ys xs i (omega arith)),
)

pub SameBits-cons :
    (x y n : ℕ) (xs ys : List ℕ)
    → x < 256
    → y < 256
    → ((x ≡ y) × SameBits n xs ys) ↔ SameBits (8 + n) (x ∷ xs) (y ∷ ys)
SameBits-cons x y n xs ys hx hy = (
  λ (e, h) i lt. elim (Bool-cases (ltb i 8)) [
    | inl low ↦
        (SameBits-first x y 8 xs ys hx hy (omega arith)).0 (ap (λ t. t / 2 ^ (8 - 8)) e) i
          (ground arith)
    | inr high ↦
        let place : i - 8 + 8 ≡ i = ground arith in
        rw place at (
          bit_at-rest x y xs ys (i - 8)
          ∙ h (i - 8) (ground arith)
          ∙ sym (bit_at-rest y x ys xs (i - 8)))
  ],
  λ h. (
    omega (arith, (SameBits-first x y 8 xs ys hx hy (omega arith)).1 (λ i lt. h i (omega arith))),
    λ i lt. sym (bit_at-rest x y xs ys i) ∙ h (i + 8) (omega arith) ∙ bit_at-rest y x ys xs i,
  ),
)
