-- ===== src/Rfc5444/Reader/Tlv.antt =====
-- `_parse_tlv` (src-api/rfc5444/rfc5444_reader.c), one definition for each step of its body.
pub mod Bounds
pub mod Safe
pub mod EmptyRange
use oonf_api.Base.{
  ℕ, ◌+◌, ◌-◌, ◌*◌, ◌/◌, ◌%◌, ◌^◌, Bool, true, false, not, bit_and, bit_or, ◌==◌, ltb,
  if◌then◌else◌, List, [], Option, none, some, replicate,
}
use oonf_api.Base.Exec.{Exec, done, fault, div_by_zero, ◌>>=◌}
use oonf_api.Base.Word.{u8, u16, sub8}
use oonf_api.Rfc5444.Reader.Cursor.{Cursor, has_flag, get_u8, get_u16}
use oonf_api.Rfc5444.Result.{
  RfcResult, okay, end_of_buffer, bad_tlv_idxflags, bad_tlv_valueflags, bad_tlv_length, is_okay,
  tlv_flag_typeext, tlv_flag_single_idx, tlv_flag_multi_idx, tlv_flag_value, tlv_flag_extvalue,
  tlv_flag_multivalue,
}

-- `struct rfc5444_reader_tlvblock_entry`; the pointers into the buffer are offsets, `none` for NULL.
pub record TlvEntry : Type 0 where
  pub tlv_type : ℕ
  pub flags : ℕ
  pub type_ext : ℕ
  pub length : ℕ
  pub single_value : Option ℕ
  pub index1 : ℕ
  pub index2 : ℕ
  pub order : ℕ
  pub value : Option ℕ
  pub multivalue : Bool
  pub int_drop_tlv : List ℕ

-- The entry after `memset(&entry, 0, sizeof(entry))`.
abbrev pub cleared_entry : TlvEntry
cleared_entry = record {
  tlv_type = 0;
  flags = 0;
  type_ext = 0;
  length = 0;
  single_value = none;
  index1 = 0;
  index2 = 0;
  order = 0;
  value = none;
  multivalue = false;
  int_drop_tlv = replicate 8 0;
}

-- `_calc_tlvblock_intorder`, and the same for a consumer entry.
unfoldable pub calc_intorder : ℕ → ℕ → ℕ
calc_intorder tlv_type type_ext = bit_or (tlv_type * 2 ^ 8) type_ext

-- The flag of a TLV with a value for each address, and the check of the value's length.
unfoldable pub check_length : ℕ → TlvEntry → Cursor → TlvEntry × Cursor
check_length eob e c =
    let result = if ltb eob (c.ptr + e.length) then end_of_buffer else c.result in
    (
      record e { multivalue = has_flag e.flags tlv_flag_multivalue },
      record { ptr = (if is_okay result then c.ptr else eob); result = result },
    )

module _ (buf : List ℕ) (eob : ℕ) where
  -- The type, the flags and the type extension.
  unfoldable pub parse_type : TlvEntry → Cursor → Exec (TlvEntry × Cursor)
  unfolding get_u8 calc_intorder
  parse_type e c = do
    (t, c1) ← get_u8 buf eob c
    (f, c2) ← get_u8 buf eob c1
    (x, c3) ← (if has_flag f tlv_flag_typeext then get_u8 buf eob c2 else done (0, c2))
    done (record e { tlv_type = t; flags = f; type_ext = x; order = u16 (calc_intorder t x) }, c3)

  -- The range of addresses that the TLV belongs to.
  unfoldable pub parse_index : ℕ → TlvEntry → Cursor → Exec (TlvEntry × Cursor)
  unfolding get_u8
  parse_index addr_count e c =
      let masked = bit_and e.flags (bit_or tlv_flag_single_idx tlv_flag_multi_idx) in
      if masked == 0
      then done (record e { index1 = 0; index2 = sub8 addr_count 1 }, c)
      else if masked == tlv_flag_single_idx
      then (do (i, c1) ← get_u8 buf eob c; done (record e { index1 = i; index2 = i }, c1))
      else if masked == tlv_flag_multi_idx
      then (do
        (i, c1) ← get_u8 buf eob c
        (j, c2) ← get_u8 buf eob c1
        done (record e { index1 = i; index2 = j }, c2))
      else done (e, record c { result = bad_tlv_idxflags })

  -- The length field.
  unfoldable pub parse_length : TlvEntry → Cursor → Exec (TlvEntry × Cursor)
  unfolding get_u8 get_u16
  parse_length e c =
      let masked = bit_and e.flags (bit_or tlv_flag_value tlv_flag_extvalue) in
      if masked == 0
      then done (record e { length = 0 }, c)
      else if masked == tlv_flag_value
      then (do (n, c1) ← get_u8 buf eob c; done (record e { length = n }, c1))
      else if masked == bit_or tlv_flag_extvalue tlv_flag_value
      then (do (n, c1) ← get_u16 buf eob c; done (record e { length = n }, c1))
      else done (e, record c { result = bad_tlv_valueflags })

-- A value for each address: its length is divided. `count` is a `uint8_t`.
unfoldable pub split_value : TlvEntry → Cursor → ℕ → Exec (TlvEntry × Cursor)
split_value e c count =
    if not e.multivalue
    then done (record e { single_value = e.value }, c)
    else if count == 0
    then fault div_by_zero
    else if not (e.length % count == 0)
    then done (e, record c { result = bad_tlv_length })
    else done (record e { length = e.length / count }, c)

-- The value, where no error has happened.
unfoldable pub parse_value : TlvEntry → Cursor → Exec (TlvEntry × Cursor)
unfolding split_value
parse_value e c =
    if not (is_okay c.result)
    then done (e, c)
    else if e.length == 0
    then done (record e { value = none }, c)
    else let count = u8 (sub8 e.index2 e.index1 + 1) in
      split_value
        (record e { value = some c.ptr; multivalue = (if count == 1 then false else e.multivalue) })
        (record c { ptr = c.ptr + e.length }) count

-- `_parse_tlv`: the entry, and the pointer with the result that is returned.
unfoldable pub parse_tlv : List ℕ → ℕ → TlvEntry → ℕ → ℕ → Exec (TlvEntry × Cursor)
unfolding parse_type parse_index parse_length check_length parse_value
parse_tlv buf eob entry ptr addr_count = do
  (e1, c1) ← parse_type buf eob entry (record { ptr = ptr; result = okay })
  (e2, c2) ← parse_index buf eob addr_count e1 c1
  (e3, c3) ← parse_length buf eob e2 c2
  let (e4, c4) = check_length eob e3 c3
  parse_value e4 c4
