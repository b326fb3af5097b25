-- ===== src/Rfc5444/TlvWriter/ReadBack.antt =====
-- The steps of the reader on a written TLV (src-api/rfc5444/rfc5444_tlv_writer.c and rfc5444_reader.c).
use oonf_api.Base.{
  ℕ, ◌+◌, ◌*◌, ◌/◌, ◌^◌, ◌≤◌, ◌<◌, ◌≡◌, refl, ap, ◌∙◌, Bool, false, Bool-cases, inl, inr, ◌==◌, ltb,
  if◌then◌else◌, List, [], ◌∷◌, length, ◌++◌, none, some, arith, bit_and,
}
use oonf_api.Base.Bits.{bit_and-byte_mask}
use oonf_api.Base.Exec.{Exec, done, ◌>>=◌}
use oonf_api.Base.Word.{u8, u16, sub8}
use oonf_api.Rfc5444.Reader.Cursor.From.{From, at, From-next, get_u8-From, get_u16-From}
use oonf_api.Rfc5444.Reader.Cursor.{Cursor}
use oonf_api.Rfc5444.Reader.Tlv.{
  TlvEntry, calc_intorder, parse_type, parse_index, parse_length, check_length, parse_value,
  split_value,
}
use oonf_api.Rfc5444.TlvWriter.Flags.{flag_bits, bits_idx, bits_multi}

-- Type, flags and type extension.
pub parse_type-From :
    {buf : List ℕ} {p t f : ℕ} {rest : List ℕ} (eob : ℕ) (e : TlvEntry)
    → From buf p (t ∷ f ∷ rest)
    → p + 1 < eob
    → bit_and f 0x80 ≡ 0
    → parse_type buf eob e (at p)
      ≡ done (
        record e { tlv_type = t; flags = f; type_ext = 0; order = u16 (calc_intorder t 0) },
        at (p + 1 + 1),
      )
unfolding parse_type
parse_type-From eob e f lt no_ext =
    rw (get_u8-From eob f (omega arith), get_u8-From eob (From-next f) lt, no_ext) refl

pub parse_type-From_ext :
    {buf : List ℕ} {p t f x : ℕ} {rest : List ℕ} (eob : ℕ) (e : TlvEntry)
    → From buf p (t ∷ f ∷ x ∷ rest)
    → p + 1 + 1 < eob
    → (bit_and f 0x80 == 0) ≡ false
    → parse_type buf eob e (at p)
      ≡ done (
        record e { tlv_type = t; flags = f; type_ext = x; order = u16 (calc_intorder t x) },
        at (p + 1 + 1 + 1),
      )
unfolding parse_type
parse_type-From_ext eob e f lt ext =
    rw
      (
        get_u8-From eob f (omega arith),
        get_u8-From eob (From-next f) (omega arith),
        ext,
        get_u8-From eob (From-next (From-next f)) lt,
      )
      refl

-- The length bytes and the value.
abbrev pub length_bytes : List ℕ → List ℕ
length_bytes value =
    (if ltb 255 (length value) then u8 (length value / 2 ^ 8) ∷ [] else [])
    ++ (if ltb 0 (length value) then bit_and (length value) 255 ∷ value else [])

-- The length is read back from two bytes, from one, or from none.
pub parse_length_long :
    {buf rest : List ℕ} {p : ℕ} (eob n : ℕ) (e : TlvEntry)
    → From buf p (u8 (n / 2 ^ 8) ∷ bit_and n 255 ∷ rest)
    → p + 1 < eob
    → n < 2 ^ 16
    → bit_and e.flags 0x18 ≡ 0x18
    → parse_length buf eob e (at p) ≡ done (record e { length = n }, at (p + 1 + 1))
unfolding parse_length
parse_length_long eob n e f lt small bits =
    let back : u16 (u16 (u8 (n / 2 ^ 8) * 2 ^ 8) + bit_and n 255) ≡ n =
      omega (arith, bit_and-byte_mask n, small) in
    rw (bits, get_u16-From eob f lt, back) refl

pub parse_length_short :
    {buf rest : List ℕ} {p : ℕ} (eob n : ℕ) (e : TlvEntry)
    → From buf p (bit_and n 255 ∷ rest)
    → p < eob
    → n ≤ 255
    → bit_and e.flags 0x18 ≡ 0x10
    → parse_length buf eob e (at p) ≡ done (record e { length = n }, at (p + 1))
unfolding parse_length
parse_length_short eob n e f lt small bits =
    let back : bit_and n 255 ≡ n = omega (arith, bit_and-byte_mask n, small) in
    rw (bits, get_u8-From eob f lt, back) refl

pub parse_length_none :
    (buf : List ℕ) {p : ℕ} (eob : ℕ) (e : TlvEntry)
    → bit_and e.flags 0x18 ≡ 0
    → parse_length buf eob e (at p) ≡ done (record e { length = 0 }, at p)
unfolding parse_length
parse_length_none buf eob e bits = rw bits refl

parse_index-From :
    (buf : List ℕ) {p : ℕ} (eob count : ℕ) (e : TlvEntry)
    → bit_and e.flags 0x60 ≡ 0
    → parse_index buf eob count e (at p)
      ≡ done (record e { index1 = 0; index2 = sub8 count 1 }, at p)
unfolding parse_index
parse_index-From buf eob count e bits = rw bits refl

-- Behind the length, the value is taken.
parse_value-From :
    (eob p : ℕ) (e : TlvEntry)
    → p + e.length ≤ eob
    → bit_and e.flags 0x04 ≡ 0
    → parse_value (check_length eob e (at p)).0 (check_length eob e (at p)).1
      ≡ done (
        record e {
          multivalue = false;
          value = (if e.length == 0 then none else some p);
          single_value = (if e.length == 0 then e.single_value else some p);
        },
        at (p + e.length),
      )
unfolding parse_value check_length split_value
parse_value-From eob p e fits single =
    let within : ltb eob (p + e.length) ≡ false = ground arith in
    elim (Bool-cases (e.length == 0)) [
      | inl empty ↦ let z : p + e.length ≡ p = ground arith in rw (within, single, empty, z) refl
      | inr given ↦
          rw (within, single, given)
            (elim (Bool-cases (u8 (sub8 e.index2 e.index1 + 1) == 1)) [
              | inl one ↦ rw one refl
              | inr more ↦ rw more refl
            ])
    ]

-- The steps of the reader behind the type of the TLV.
abbrev pub after_type : List ℕ → ℕ → ℕ → TlvEntry → Cursor → Exec (TlvEntry × Cursor)
after_type buf eob count e1 c1 = do
  (e2, c2) ← parse_index buf eob count e1 c1
  (e3, c3) ← parse_length buf eob e2 c2
  let (e4, c4) = check_length eob e3 c3
  parse_value e4 c4

-- The entry behind them, for a value of `n` bytes at `p`.
abbrev pub finished : ℕ → ℕ → ℕ → TlvEntry → TlvEntry
finished count n p e = record e {
  index1 = 0;
  index2 = sub8 count 1;
  length = n;
  multivalue = false;
  value = (if n == 0 then none else some p);
  single_value = (if n == 0 then e.single_value else some p);
}

-- With the length read, index and value follow.
pub finish :
    (buf : List ℕ) (eob count n q p : ℕ) (e : TlvEntry) (a b c : Bool)
    → e.flags ≡ flag_bits a b c
    → ((e2 : TlvEntry)
        → e2.flags ≡ e.flags
        → parse_length buf eob e2 (at q) ≡ done (record e2 { length = n }, at p))
    → p + n ≤ eob
    → after_type buf eob count e (at q) ≡ done (finished count n p e, at (p + n))
finish buf eob count n q p e a b c flags len fits =
    let idx : bit_and e.flags 0x60 ≡ 0 = ap (λ f. bit_and f 0x60) flags ∙ bits_idx a b c in
    let single : bit_and e.flags 0x04 ≡ 0 = ap (λ f. bit_and f 0x04) flags ∙ bits_multi a b c in
    rw
      (
        parse_index-From buf eob count e idx,
        len (record e { index1 = 0; index2 = sub8 count 1 }) refl,
      )
      (parse_value-From eob p (record e { index1 = 0; index2 = sub8 count 1; length = n }) fits
        single)
