-- ===== src/Rfc5444/Seqno.antt =====
-- 16-bit sequence numbers that roll over (src-api/rfc5444/rfc5444.c and rfc5444.h).
pub mod Order
use oonf_api.Base.{ℕ, ◌-◌, ◌^◌, Bool, not, ◌&&◌, ◌||◌, ltb, ◌==◌, if◌then◌else◌}
use oonf_api.Base.Int.{ℤ, pos, negsuc, sub_ℕ, ◌+ℤ◌, -ℤ◌, ltb_ℤ}

-- The C expressions `1 << 15` and `1 << 16`.
abbrev pub half_range : ℕ
half_range = 2 ^ 15

abbrev pub full_range : ℕ
full_range = 2 ^ 16

unfoldable pub seqno_difference : ℕ → ℕ → ℤ
seqno_difference seqno1 seqno2 =
    let diff = sub_ℕ seqno1 seqno2 in
    if ltb_ℤ (pos half_range) diff
    then diff +ℤ (-ℤ (pos full_range))
    else if ltb_ℤ diff (-ℤ (pos half_range))
    then diff +ℤ pos full_range
    else diff

unfoldable pub seqno_is_larger : ℕ → ℕ → Bool
seqno_is_larger s1 s2 =
    (ltb s2 s1 && ltb (s1 - s2) half_range) || (ltb s1 s2 && ltb half_range (s2 - s1))

unfoldable pub seqno_is_smaller : ℕ → ℕ → Bool
unfolding seqno_is_larger
seqno_is_smaller s1 s2 = not (s1 == s2) && not (seqno_is_larger s1 s2)
