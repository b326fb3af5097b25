-- ===== src/Rfc5444/Reader/Tlv/EmptyRange.antt =====
-- A multivalue TLV for no address (src-api/rfc5444/rfc5444_reader.c).
use oonf_api.Base.{
  ℕ, ◌+◌, ◌*◌, ◌%◌, ◌^◌, ◌≤◌, ◌<◌, ◌≡◌, refl, false, ltb, ◌==◌, List, [], ◌∷◌, ◌++◌, length,
  bit_and, arith,
}
use oonf_api.Base.Exec.{fault, div_by_zero}
use oonf_api.Base.Word.{u8, u16, sub8}
use oonf_api.Rfc5444.Reader.Cursor.From.{From, at, From-next, get_u8-From, get_u16-From}
use oonf_api.Rfc5444.Reader.Tlv.{
  TlvEntry, parse_tlv, parse_index, parse_length, check_length, parse_value, split_value,
}
use oonf_api.Rfc5444.TlvWriter.ReadBack.{parse_type-From, parse_type-From_ext, after_type}

-- The bytes of the type extension, as the flags announce it.
pub data Extension (flags : ℕ) : List ℕ → Type 0 where
  no_extension : bit_and flags 0x80 ≡ 0 → Extension flags []
  extension : (x : ℕ) → (bit_and flags 0x80 == 0) ≡ false → Extension flags (x ∷ [])

-- The bytes of the field for a length `n`, as the flags announce it.
pub data LengthField (flags n : ℕ) : List ℕ → Type 0 where
  one_byte : bit_and flags 0x18 ≡ 0x10 → LengthField flags n (n ∷ [])
  two_bytes :
      (hi lo : ℕ)
      → bit_and flags 0x18 ≡ 0x18
      → hi < 256
      → lo < 256
      → hi * 256 + lo ≡ n
      → LengthField flags n (hi ∷ lo ∷ [])

-- The flags announce two indices, and a value for each address.
pub record IsRange (flags : ℕ) : Type 0 where
  pub two_indices : bit_and flags 0x60 ≡ 0x20
  pub multivalue : (bit_and flags 0x04 == 0) ≡ false

module _ (buf rest : List ℕ) (eob i j n : ℕ) (hi : i < 256) (hj : j < 256)
    (range : (j + 1) % 256 ≡ i) (given : 0 < n) where
  -- Behind the length, the value is to be divided.
  split_none :
      (q : ℕ) (e : TlvEntry)
      → IsRange e.flags
      → e.length ≡ n
      → e.index1 ≡ i
      → e.index2 ≡ j
      → q + n ≤ eob
      → parse_value (check_length eob e (at q)).0 (check_length eob e (at q)).1 ≡ fault div_by_zero
  unfolding parse_value check_length split_value
  split_none q e flags len from to fits =
      let within : ltb eob (q + e.length) ≡ false = ground arith in
      let some_bytes : (e.length == 0) ≡ false = ground arith in
      let none : u8 (sub8 e.index2 e.index1 + 1) ≡ 0 = rw (from, to) (omega arith) in
      rw (within, some_bytes, flags.multivalue, none) refl

  after_type-empty_range :
      (q count : ℕ) (e : TlvEntry) (size : List ℕ)
      → From buf q (i ∷ j ∷ (size ++ rest))
      → IsRange e.flags
      → LengthField e.flags n size
      → q + 2 + length size + n ≤ eob
      → after_type buf eob count e (at q) ≡ fault div_by_zero
  unfolding parse_index parse_length
  after_type-empty_range q count e size f flags (one_byte bits) fits =
      let f2 = From-next (From-next f) in
      rw
        (
          flags.two_indices,
          get_u8-From eob f (omega arith),
          get_u8-From eob (From-next f) (omega arith),
          bits,
          get_u8-From eob f2 (omega arith),
        )
        (split_none (q + 1 + 1 + 1) (record e { index1 = i; index2 = j; length = n }) flags refl
          refl refl (omega arith))
  after_type-empty_range q count e size f flags (two_bytes x y bits hx hy word_eq) fits =
      let f2 = From-next (From-next f) in
      let word : u16 (u16 (x * 2 ^ 8) + y) ≡ n = omega arith in
      rw
        (
          flags.two_indices,
          get_u8-From eob f (omega arith),
          get_u8-From eob (From-next f) (omega arith),
          bits,
          get_u16-From eob f2 (omega arith),
          word,
        )
        (split_none (q + 1 + 1 + 1 + 1) (record e { index1 = i; index2 = j; length = n }) flags refl
          refl refl (omega arith))

-- A TLV with a value for each of a range of addresses that ends one in front of its start, as 0 to
-- 255 or 5 to 4, and with a value that is not empty and lies inside the stream, makes the parser
-- divide by zero: for all flags that announce two indices, a value for each address, and a length of
-- one byte or of two, with a type extension or without.
pub parse_tlv_empty_range :
    (buf ext size rest : List ℕ) (eob p count t flags i j n : ℕ) (entry : TlvEntry)
    → From buf p (t ∷ flags ∷ (ext ++ (i ∷ j ∷ (size ++ rest))))
    → Extension flags ext
    → IsRange flags
    → LengthField flags n size
    → i < 256
    → j < 256
    → (j + 1) % 256 ≡ i
    → 0 < n
    → p + 4 + length ext + length size + n ≤ eob
    → parse_tlv buf eob entry p count ≡ fault div_by_zero
unfolding parse_tlv
parse_tlv_empty_range buf ext size rest eob p count t flags i j n entry f (no_extension none)
      is_range field hi hj range given fits =
    rw (parse_type-From eob entry f (omega arith) none) (
      after_type-empty_range buf rest eob i j n hi hj range given (p + 1 + 1) count _ size
        (From-next (From-next f)) is_range field (omega arith))
parse_tlv_empty_range buf ext size rest eob p count t flags i j n entry f (extension x some)
      is_range field hi hj range given fits =
    rw (parse_type-From_ext eob entry f (omega arith) some) (
      after_type-empty_range buf rest eob i j n hi hj range given (p + 1 + 1 + 1) count _ size
        (From-next (From-next (From-next f))) is_range field (omega arith))
