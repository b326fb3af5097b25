-- ===== src/DuplicateSet/Window.antt =====
-- One entry of the duplicate set (src-api/subsystems/oonf_duplicate_set.c) as a window of 32
-- sequence numbers that ends with the current one.
use native.Mathlib.Nat.{pow-le-pow_right, one-le-pow}
use oonf_api.Base.{
  ℕ, zero, suc, ◌-◌, ◌*◌, ◌^◌, ◌≤◌, ◌<◌, ◌≡◌, ◌≢◌, refl, ◌⊎◌, Bool, true, false, bit_and, bit_or,
  ltb, ◌==◌, if◌then◌else◌, ap, ◌∙◌, arith,
}
use oonf_api.Base.Bits.{
  nth_bit, nth_bit-lt, nth_bit-bit_or, nth_bit-pow, bit_and-pow, nth_bit-mod, nth_bit-shift,
}
use oonf_api.Base.Word.{u32}
use oonf_api.DuplicateSet.{DupResult, duplicate, current_number, new, Entry, test_history}
use oonf_api.DuplicateSet.Place.{back_of}

-- The number is in the window, and its bit in the history is set.
abbrev pub Seen : Entry → ℕ → Type 0
Seen e s = (back_of e s < 32) × (nth_bit (back_of e s) e.history ≡ 1)

-- The current number is 16 bits wide and marked as seen, and the count stays within its limit.
pub record IsWindow (e : Entry) : Type 0 where
  pub current_lt : e.current < 2 ^ 16
  pub current_seen : nth_bit 0 e.history ≡ 1
  pub count_le : e.too_old_count ≤ 8

u32-pow : (b : ℕ) → b < 32 → u32 (2 ^ b) ≡ 2 ^ b
u32-pow b h = omega (arith, pow-le-pow_right {n = 2} (omega arith) {i = b} {j = 31} (omega arith))

-- The history's test of a bit, and the history with the bit set.
masked : (h b : ℕ) → b < 32 → (bit_and h (u32 (2 ^ b)) == 0) ≡ (nth_bit b h == 0)
masked h b lt = by_bit (nth_bit b h) refl (nth_bit-lt b h)
  where
    pos : 1 ≤ 2 ^ b
    pos = one-le-pow b 2 (omega arith)

    value : bit_and h (u32 (2 ^ b)) ≡ nth_bit b h * 2 ^ b
    value = ap (bit_and h) (u32-pow b lt) ∙ bit_and-pow b h

    by_bit : (n : ℕ) → nth_bit b h ≡ n → n < 2 → (bit_and h (u32 (2 ^ b)) == 0) ≡ (nth_bit b h == 0)
    by_bit zero e l = rw e (ground (arith, value, e))
    by_bit (suc zero) e l = rw e (ground (arith, value, e, pos, ap (λ (t : ℕ). t * 2 ^ b) e))
    by_bit (suc (suc n)) e l = absurd (omega arith)

pub marked :
    (h b k : ℕ) → b < 32 → nth_bit k (bit_or h (u32 (2 ^ b))) ≡ (if k == b then 1 else nth_bit k h)
marked h b k lt =
    rw u32-pow (nth_bit-bit_or k h (2 ^ b) ∙ ground (arith, nth_bit-pow k b, nth_bit-lt k h))

-- The history after a step of `d` ahead.
pub shifted :
    (h d k : ℕ)
    → k < 32
    → nth_bit k (bit_or (u32 (h * 2 ^ d)) 1)
      ≡ (if k == 0 then 1 else (if ltb k d then 0 else nth_bit (k - d) h))
shifted h d k lt = ground (
  arith,
  nth_bit-bit_or k (u32 (h * 2 ^ d)) 1,
  nth_bit-mod k 32 (h * 2 ^ d) lt,
  nth_bit-shift k d h,
  nth_bit-pow k 0,
  nth_bit-lt (k - d) h,
)

abbrev pub IsKnown : DupResult → Type 0
IsKnown r = (r ≡ duplicate) ⊎ (r ≡ current_number)

-- What the history part answers.
pub test_history_known :
    (e : Entry) (b : ℕ) (add : Bool)
    → b < 32
    → nth_bit b e.history ≡ 1
    → test_history e b add ≡ (e, duplicate)
unfolding test_history
test_history_known e b add lt h =
    let t : (bit_and e.history (u32 (2 ^ b)) == 0) ≡ false =
      masked e.history b lt ∙ ground (arith, h) in
    rw t

pub test_history_new :
    (e : Entry) (b : ℕ) (add : Bool)
    → b < 32
    → nth_bit b e.history ≢ 1
    → test_history e b add
      ≡ ((if add then record e { history = bit_or e.history (u32 (2 ^ b)) } else e), new)
unfolding test_history
test_history_new e b add lt h =
    let t : (bit_and e.history (u32 (2 ^ b)) == 0) ≡ true =
      masked e.history b lt ∙ ground (arith, nth_bit-lt b e.history) in
    rw t
