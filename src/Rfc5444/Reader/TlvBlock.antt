-- ===== src/Rfc5444/Reader/TlvBlock.antt =====
-- `_parse_tlvblock` (src-api/rfc5444/rfc5444_reader.c): a length, and TLVs that are collected in
-- a tree by their type. `memory` is the number of further allocations that succeed.
pub mod Bounds
pub mod Collect
pub mod Safe
use oonf_api.Base.{ℕ, zero, suc, ◌+◌, ◌-◌, Bool, not, ◌==◌, ltb, if◌then◌else◌, List, [], length}
use oonf_api.Base.Exec.{Exec, done, ◌>>=◌}
use oonf_api.Common.SortedTree.{avl_insert, avl_comp_uint16}
use oonf_api.Rfc5444.Reader.Cursor.{Cursor, get_u16}
use oonf_api.Rfc5444.Reader.Tlv.{TlvEntry, cleared_entry, parse_tlv}
use oonf_api.Rfc5444.Result.{okay, end_of_buffer, out_of_memory, is_okay}

pub record Block : Type 0 where
  pub tlvs : List TlvEntry
  pub memory : ℕ

-- `_free_tlvblock`
unfoldable pub free_tlvblock : Block → Block
free_tlvblock b = record { tlvs = []; memory = b.memory + length b.tlvs }

-- The copy of the parsed TLV in new memory, in the tree.
unfoldable pub store_tlv : Block → TlvEntry → Block
unfolding avl_insert avl_comp_uint16
store_tlv b e = record {
  tlvs = avl_insert avl_comp_uint16 (λ t. t.order) b.tlvs e;
  memory = b.memory - 1;
}

-- `while (*ptr < end)`; each TLV is parsed into the same static buffer `entry`.
unfoldable pub tlv_loop : ℕ → List ℕ → ℕ → ℕ → ℕ → TlvEntry → Block → Cursor → Exec (Block × Cursor)
unfolding parse_tlv store_tlv
tlv_loop zero buf eob end addr_count entry b c = done (b, c)
tlv_loop (suc fuel) buf eob end addr_count entry b c =
    if not (ltb c.ptr end) then done (b, c) else (do
      (e, c1) ← parse_tlv buf eob entry c.ptr addr_count
      let rest = tlv_loop fuel buf eob end addr_count e (store_tlv b e) c1
      if not (is_okay c1.result)
          then done (b, c1)
          else if b.memory == 0
          then done (b, record c1 { result = out_of_memory })
          else rest)

-- The label `cleanup_parse_tlvblock`.
unfoldable pub cleanup_tlvblock : ℕ → Block × Cursor → Block × Cursor
unfolding free_tlvblock
cleanup_tlvblock eob r =
    if is_okay r.1.result then r else (free_tlvblock r.0, record r.1 { ptr = eob })

unfoldable pub parse_tlvblock : List ℕ → ℕ → ℕ → Block → ℕ → Exec (Block × Cursor)
unfolding get_u16 tlv_loop cleanup_tlvblock
parse_tlvblock buf eob addr_count b ptr = do
  (len, c) ← get_u16 buf eob (record { ptr = ptr; result = okay })
  r ←
      (if ltb eob (c.ptr + len)
        then done (b, record c { result = end_of_buffer })
        else tlv_loop (suc len) buf eob (c.ptr + len) addr_count cleared_entry b c)
  done (cleanup_tlvblock eob r)
