-- ===== src/Rfc5444/Seqno/Order.antt =====
-- The signed distance of two sequence numbers, and how the two tests order them
-- (src-api/rfc5444/rfc5444.c and rfc5444.h).
use oonf_api.Base.{ℕ, ◌+◌, ◌-◌, ◌^◌, ◌<◌, ◌≡◌, ◌↔◌, ◌⊎◌, true, arith}
use oonf_api.Base.Int.{pos, pos_part, neg_part, -ℤ◌, ◌≤ℤ◌, ◌<ℤ◌}
use oonf_api.Base.Word.{u16}
use oonf_api.Rfc5444.Seqno.{seqno_difference, seqno_is_larger, seqno_is_smaller, half_range}

-- The signed distance leads from the second number to the first modulo 2 ^ 16, and is at most
-- 2 ^ 15 either way.
pub seqno_difference_lem :
    (s1 s2 : ℕ)
    → s1 < 2 ^ 16
    → s2 < 2 ^ 16
    → (u16 (s2 + pos_part (seqno_difference s1 s2) + 2 ^ 16 - neg_part (seqno_difference s1 s2))
        ≡ s1)
      × (-ℤ (pos half_range) ≤ℤ seqno_difference s1 s2)
      × (seqno_difference s1 s2 ≤ℤ pos half_range)
unfolding seqno_difference
seqno_difference_lem s1 s2 h1 h2 = ground arith

-- Swapping the numbers changes the sign of the distance.
pub seqno_difference_swap :
    (s1 s2 : ℕ) → s1 < 2 ^ 16 → s2 < 2 ^ 16 → seqno_difference s1 s2 ≡ -ℤ (seqno_difference s2 s1)
unfolding seqno_difference
seqno_difference_swap s1 s2 h1 h2 = ground arith

-- A number is larger exactly when its distance is positive and not half of the range.
pub seqno_is_larger_iff :
    (s1 s2 : ℕ)
    → s1 < 2 ^ 16
    → s2 < 2 ^ 16
    → (seqno_is_larger s1 s2 ≡ true)
      ↔ ((pos 0 <ℤ seqno_difference s1 s2) × (seqno_difference s1 s2 <ℤ pos half_range))
unfolding seqno_difference seqno_is_larger
seqno_is_larger_iff s1 s2 h1 h2 = ground arith

-- Two numbers are each smaller than the other exactly when they are half of the range apart.
pub seqno_is_smaller_both_iff :
    (s1 s2 : ℕ)
    → s1 < 2 ^ 16
    → s2 < 2 ^ 16
    → ((seqno_is_smaller s1 s2 ≡ true) × (seqno_is_smaller s2 s1 ≡ true))
      ↔ ((s1 ≡ s2 + half_range) ⊎ (s2 ≡ s1 + half_range))
unfolding seqno_is_smaller
seqno_is_smaller_both_iff s1 s2 h1 h2 = ground arith
