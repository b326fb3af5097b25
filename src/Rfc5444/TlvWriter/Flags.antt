-- ===== src/Rfc5444/TlvWriter/Flags.antt =====
-- The flags of a written TLV as the reader masks them (src-api/rfc5444/rfc5444_tlv_writer.c).
use mathlib.Core.Bool.{false≢true}
use oonf_api.Base.{
  ℕ, ◌≡◌, refl, sym, Bool, true, false, not, ◌==◌, ltb, if◌then◌else◌, bit_and, bit_or,
}
use oonf_api.Rfc5444.TlvWriter.{tlv_flags}

-- The flags of a written TLV, by the three tests that they depend on.
abbrev pub flag_bits : Bool → Bool → Bool → ℕ
flag_bits ext long given =
    let f1 = if ext then 0x80 else 0 in
    let f3 = if long then bit_or f1 0x08 else f1 in if given then bit_or f3 0x10 else f3

pub tlv_flags-flag_bits :
    (x n : ℕ) → tlv_flags x 0 255 n ≡ flag_bits (ltb 0 x) (ltb 255 n) (ltb 0 n)
unfolding tlv_flags
tlv_flags-flag_bits x n = refl

pub bits_idx : (a b c : Bool) → bit_and (flag_bits a b c) 0x60 ≡ 0
bits_idx true true true = refl
bits_idx true true false = refl
bits_idx true false true = refl
bits_idx true false false = refl
bits_idx false true true = refl
bits_idx false true false = refl
bits_idx false false true = refl
bits_idx false false false = refl

pub bits_multi : (a b c : Bool) → bit_and (flag_bits a b c) 0x04 ≡ 0
bits_multi true true true = refl
bits_multi true true false = refl
bits_multi true false true = refl
bits_multi true false false = refl
bits_multi false true true = refl
bits_multi false true false = refl
bits_multi false false true = refl
bits_multi false false false = refl

pub bits_ext : (a b c : Bool) → (bit_and (flag_bits a b c) 0x80 == 0) ≡ not a
bits_ext true true true = refl
bits_ext true true false = refl
bits_ext true false true = refl
bits_ext true false false = refl
bits_ext false true true = refl
bits_ext false true false = refl
bits_ext false false true = refl
bits_ext false false false = refl

pub bits_none : (a b c : Bool) → a ≡ false → bit_and (flag_bits a b c) 0x80 ≡ 0
bits_none false true true h = refl
bits_none false true false h = refl
bits_none false false true h = refl
bits_none false false false h = refl
bits_none true b c h = absurd (false≢true (sym h))

pub bits_len :
    (a b c : Bool)
    → bit_and (flag_bits a b c) 0x18
      ≡ (if c then (if b then 0x18 else 0x10) else if b then 0x08 else 0)
bits_len true true true = refl
bits_len true true false = refl
bits_len true false true = refl
bits_len true false false = refl
bits_len false true true = refl
bits_len false true false = refl
bits_len false false true = refl
bits_len false false false = refl
