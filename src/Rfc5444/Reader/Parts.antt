-- ===== src/Rfc5444/Reader/Parts.antt =====
-- The parsing in `_handle_message` (src-api/rfc5444/rfc5444_reader.c): the header of a message, its
-- TLVs, and its address blocks.
pub mod Fields
pub mod Ending
use oonf_api.Base.Exec.{Exec, done, ◌>>=◌}
use oonf_api.Base.Int.{ltb_ℤ, pos, negsuc}
use oonf_api.Base.{
  ℕ, zero, suc, ◌+◌, ◌-◌, ◌*◌, Bool, true, false, not, ◌&&◌, ◌||◌, ◌==◌, bit_and, ltb,
  if◌then◌else◌, List, [], ◌∷◌, ◌++◌, length, get_elem?, set, take, drop, Option, none, some,
}
use oonf_api.Common.Netaddr.{Netaddr, Families, netaddr_from_binary_prefix}
use oonf_api.Rfc5444.Reader.AddrBlock.{cleared_addrblock, parse_addrblock}
use oonf_api.Rfc5444.Reader.Consumer.{ContextType, Context, Consumer}
use oonf_api.Rfc5444.Reader.Cursor.{Cursor, has_flag, get_u8, get_u16}
use oonf_api.Rfc5444.Reader.Fuel.{◌>>?◌, with_value}
use oonf_api.Rfc5444.Reader.Dispatch.{
  AddrEntry, Stage, Scene, with_type, wants, schedule_msgtlv_consumer, schedule_msgaddr_consumer,
  schedule_end_message_cbs,
}
use oonf_api.Rfc5444.Reader.Tlv.{TlvEntry}
use oonf_api.Rfc5444.Reader.TlvBlock.{Block, parse_tlvblock}
use oonf_api.Rfc5444.Result.{
  RfcResult, okay, drop_message, drop_msg_but_forward, end_of_buffer, out_of_memory, is_okay,
  msg_flag_originator, msg_flag_hoplimit, msg_flag_hopcount, msg_flag_seqno, msg_flag_addrlenmask,
}

-- The header: the context, the size field, and whether `end` has been set.
pub record Header : Type 0 where
  pub context : Context
  pub size : ℕ
  pub cursor : Cursor
  pub has_end : Bool

module _ (af : Families) (buf : List ℕ) (eob : ℕ) where
  -- A field of one byte, or of two, that is there if a flag is set.
  unfoldable pub get_optional_u8 : Bool → ℕ → Cursor → Exec (ℕ × Cursor)
  unfolding get_u8
  get_optional_u8 there old c = if there then get_u8 buf eob c else done (old, c)

  unfoldable pub get_optional_u16 : Bool → ℕ → Cursor → Exec (ℕ × Cursor)
  unfolding get_u16
  get_optional_u16 there old c = if there then get_u16 buf eob c else done (old, c)

  -- The originator, where it fits.
  unfoldable pub get_originator : Bool → Context → Cursor → Exec (Context × Cursor)
  unfolding netaddr_from_binary_prefix
  get_originator there context c = if not there then done (context, c) else (do
    (addr, rc) ←
        netaddr_from_binary_prefix af context.orig_addr (drop c.ptr buf) context.addr_len 0 255
    done (record context { orig_addr = addr }, record c { ptr = c.ptr + context.addr_len }))

  -- The fields behind the originator.
  unfoldable pub parse_tail_fields : ℕ → ℕ → Context → Cursor → Exec Header
  unfolding get_optional_u8 get_optional_u16
  parse_tail_fields flags size context c = do
    (limit, c1) ← get_optional_u8 (has_flag flags msg_flag_hoplimit) context.hoplimit c
    (count, c2) ← get_optional_u8 (has_flag flags msg_flag_hopcount) context.hopcount c1
    (seqno, c3) ← get_optional_u16 (has_flag flags msg_flag_seqno) context.seqno c2
    done (record {
      context = record context {
        has_hoplimit = has_flag flags msg_flag_hoplimit;
        hoplimit = limit;
        has_hopcount = has_flag flags msg_flag_hopcount;
        hopcount = count;
        has_seqno = has_flag flags msg_flag_seqno;
        seqno = seqno;
      };
      size = size;
      cursor = c3;
      has_end = true;
    })

  unfoldable pub parse_msg_header : Context → ℕ → Exec Header
  unfolding get_u8 get_u16 get_originator parse_tail_fields
  parse_msg_header context start = do
    (t, c1) ← get_u8 buf eob (record { ptr = start; result = okay })
    (flags, c2) ← get_u8 buf eob c1
    (size, c3) ← get_u16 buf eob c2
    let origin = has_flag flags msg_flag_originator
    let ctx = record context {
      do_not_forward = false;
      msg_type = t;
      addr_len = bit_and flags msg_flag_addrlenmask + 1;
      msg_flags = bit_and flags (255 - msg_flag_addrlenmask);
      has_origaddr = origin;
    }
    if origin && ltb eob (c3.ptr + ctx.addr_len)
        then done (record {
          context = ctx;
          size = size;
          cursor = record c3 { result = end_of_buffer };
          has_end = false;
        })
        else (do (ctx1, c4) ← get_originator origin ctx c3; parse_tail_fields flags size ctx1 c4)

-- What a message is parsed into, the memory that is left, and where the pointer stands.
pub record Parts : Type 0 where
  pub tlvs : List TlvEntry
  pub addrs : List AddrEntry
  pub memory : ℕ
  pub ptr : ℕ

module _ (buf : List ℕ) (end addr_len : ℕ) where
  -- A round of `while (*ptr < end)`: an entry, an address block, and its TLV block.
  unfoldable pub parse_entry : Parts → Exec (RfcResult × Parts)
  unfolding parse_addrblock parse_tlvblock
  parse_entry m = if m.memory == 0 then done (out_of_memory, m) else (do
    (r, b, c) ← parse_addrblock buf end addr_len cleared_addrblock m.ptr
    if not (is_okay r) then done (r, record m { ptr = c.ptr }) else (do
      (t, c1) ←
          parse_tlvblock buf end b.num_addr (record { tlvs = []; memory = m.memory - 1 }) c.ptr
      if not (is_okay c1.result)
          then done (c1.result, record m { ptr = c1.ptr; memory = t.memory + 1 })
          else done (
            okay,
            record m {
              addrs = m.addrs ++ (record { block = b; tlvs = t.tlvs } ∷ []);
              memory = t.memory;
              ptr = c1.ptr;
            },
          )))

  -- The loop on fuel.
  unfoldable pub entry_rounds : ℕ → Parts → Exec (Option (RfcResult × Parts))
  unfolding parse_entry
  entry_rounds zero m = done none
  entry_rounds (suc fuel) m = elim (ltb m.ptr end) [
    | false ↦ done (some (okay, m))
    | true ↦
        parse_entry m
        >>= (λ r. elim (is_okay r.0) [ true ↦ entry_rounds fuel r.1 | false ↦ done (some r) ])
  ]

  -- The TLVs of the message and the rest of it.
  unfoldable pub parse_parts : ℕ → ℕ → Exec (Option (RfcResult × Parts))
  unfolding parse_tlvblock entry_rounds
  parse_parts memory ptr = do
    (t, c) ← parse_tlvblock buf end 0 (record { tlvs = []; memory = memory }) ptr
    let m : Parts = record { tlvs = t.tlvs; addrs = []; memory = t.memory; ptr = c.ptr }
    if not (is_okay c.result) then done (some (c.result, m)) else entry_rounds (suc end) m

-- What `_free_tlvblock` and `free_addrblock_entry` give back at the end.
unfoldable pub owned_addrs : List AddrEntry → ℕ
owned_addrs [] = 0
owned_addrs (a ∷ addrs) = suc (length a.tlvs) + owned_addrs addrs

unfoldable pub free_parts : Parts → ℕ
unfolding owned_addrs
free_parts m = m.memory + length m.tlvs + owned_addrs m.addrs
