-- ===== src/Rfc5444/TlvWriter.antt =====
-- Building packet and message TLVs (src-api/rfc5444/rfc5444_tlv_writer.c). The bytes of a value
-- are a list, whose length is the parameter `length` of the source; sums of sizes stay
-- below 2 ^ 64.
pub mod Flags
pub mod Size
pub mod Room
pub mod ReadBack
pub mod RoundTrip
use oonf_api.Base.{
  ℕ, ◌+◌, ◌-◌, ◌/◌, ◌^◌, Bool, not, ◌||◌, bit_and, bit_or, ◌==◌, ltb, if◌then◌else◌, List, [], ◌∷◌,
  ◌++◌, length, replicate,
}
use oonf_api.Base.Exec.{Exec, done, ◌>>=◌}
use oonf_api.Base.Word.{u8, sub64}
use oonf_api.Common.Autobuf.{store}
use oonf_api.Rfc5444.Result.{
  RfcResult, okay, mtu_too_small, tlv_flag_typeext, tlv_flag_single_idx, tlv_flag_multi_idx,
  tlv_flag_value, tlv_flag_extvalue,
}

-- `struct rfc5444_tlv_writer_data`
pub record TlvWriterData : Type 0 where
  pub buffer : List ℕ
  pub header : ℕ
  pub added : ℕ
  pub allocated : ℕ
  pub set : ℕ
  pub max : ℕ

-- `_calc_tlv_size`
unfoldable pub calc_tlv_size : Bool → ℕ → ℕ
calc_tlv_size exttype n =
    let s = (if exttype then 3 else 2) + n in
    if ltb 255 n then s + 2 else if ltb 0 n then s + 1 else s

-- The flags field of `_write_tlv`.
unfoldable pub tlv_flags : ℕ → ℕ → ℕ → ℕ → ℕ
tlv_flags exttype idx1 idx2 n =
    let f1 = if ltb 0 exttype then tlv_flag_typeext else 0 in
    let f2 =
      if idx1 == idx2
      then bit_or f1 tlv_flag_single_idx
      else if ltb 0 idx1 || ltb idx2 255
      then bit_or f1 tlv_flag_multi_idx
      else f1 in
    let f3 = if ltb 255 n then bit_or f2 tlv_flag_extvalue else f2 in
    if ltb 0 n then bit_or f3 tlv_flag_value else f3

-- The bytes that `_write_tlv` writes from `ptr` on.
unfoldable pub write_tlv : ℕ → ℕ → ℕ → ℕ → List ℕ → List ℕ
unfolding tlv_flags
write_tlv tlv_type exttype idx1 idx2 value =
    let n = length value in
    tlv_type ∷ tlv_flags exttype idx1 idx2 n ∷ (if not (exttype == 0) then exttype ∷ [] else [])
    ++ ((if ltb 0 idx1 || ltb idx2 255
          then idx1 ∷ (if not (idx1 == idx2) then idx2 ∷ [] else [])
          else [])
        ++ ((if ltb 255 n then u8 (n / 2 ^ 8) ∷ [] else [])
            ++ (if ltb 0 n then bit_and n 255 ∷ value else [])))

-- `_rfc5444_tlv_writer_init`, with `DEBUG_CLEANUP`.
unfoldable pub tlv_writer_init : TlvWriterData → ℕ → ℕ → Exec TlvWriterData
unfolding store
tlv_writer_init d max mtu = do
  mem ← store d.buffer 0 (replicate mtu 0)
  done (record { buffer = mem; header = 0; added = 0; allocated = 0; set = 0; max = max })

-- `_rfc5444_tlv_writer_add`
unfoldable pub tlv_writer_add : TlvWriterData → ℕ → ℕ → List ℕ → Exec (TlvWriterData × RfcResult)
unfolding calc_tlv_size write_tlv store
tlv_writer_add d tlv_type exttype value =
    let s = calc_tlv_size (not (exttype == 0)) (length value) in
    if ltb d.max (d.header + d.added + d.allocated + s) then done (d, mtu_too_small) else (do
      mem ← store d.buffer (d.header + d.added) (write_tlv tlv_type exttype 0 255 value)
      done (record d { buffer = mem; added = d.added + s }, okay))

-- `_rfc5444_tlv_writer_allocate`
unfoldable pub tlv_writer_allocate : TlvWriterData → Bool → ℕ → TlvWriterData × RfcResult
unfolding calc_tlv_size
tlv_writer_allocate d has_exttype n =
    let s = calc_tlv_size has_exttype n in
    if ltb d.max (d.header + d.added + d.allocated + s)
    then (d, mtu_too_small)
    else (record d { allocated = d.allocated + s }, okay)

-- `_rfc5444_tlv_writer_set`
unfoldable pub tlv_writer_set : TlvWriterData → ℕ → ℕ → List ℕ → Exec (TlvWriterData × RfcResult)
unfolding calc_tlv_size write_tlv store
tlv_writer_set d tlv_type exttype value =
    let s = calc_tlv_size (not (exttype == 0)) (length value) in
    if ltb (sub64 d.allocated d.set) s then done (d, mtu_too_small) else (do
      mem ← store d.buffer (d.header + d.added + d.set) (write_tlv tlv_type exttype 0 255 value)
      done (record d { buffer = mem; set = d.set + s }, okay))
