-- ===== src/Rfc5444/TlvWriter/Size.antt =====
-- The size of a TLV (src-api/rfc5444/rfc5444_tlv_writer.c).
use oonf_api.Base.{ℕ, ◌≡◌, true, Bool-cases, inl, inr, not, ◌==◌, ltb, List, length, arith}
use oonf_api.Rfc5444.TlvWriter.{calc_tlv_size, write_tlv}

-- As many bytes are written as are counted.
pub length-write_tlv :
    (tlv_type exttype : ℕ) (value : List ℕ)
    → length (write_tlv tlv_type exttype 0 255 value)
      ≡ calc_tlv_size (not (exttype == 0)) (length value)
unfolding write_tlv calc_tlv_size
length-write_tlv tlv_type exttype value = elim (Bool-cases (exttype == 0)) [
  | inl none ↦ elim (Bool-cases (ltb 255 (length value))) [
    | inl long ↦
        let some : ltb 0 (length value) ≡ true = ground arith in rw (none, long, some) (omega arith)
    | inr short ↦ elim (Bool-cases (ltb 0 (length value))) [
      | inl some ↦ rw (none, short, some) (omega arith)
      | inr empty ↦ rw (none, short, empty) (ground arith)
    ]
  ]
  | inr ext ↦ elim (Bool-cases (ltb 255 (length value))) [
    | inl long ↦
        let some : ltb 0 (length value) ≡ true = ground arith in rw (ext, long, some) (omega arith)
    | inr short ↦ elim (Bool-cases (ltb 0 (length value))) [
      | inl some ↦ rw (ext, short, some) (omega arith)
      | inr empty ↦ rw (ext, short, empty) (ground arith)
    ]
  ]
]
