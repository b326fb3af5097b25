-- ===== src/Rfc5444/Reader/AddrBlock.antt =====
-- `_parse_addrblock` (src-api/rfc5444/rfc5444_reader.c), one definition for each step of its body.
pub mod Regions
pub mod Forward
pub mod Overflow
use oonf_api.Base.{
  ℕ, ◌+◌, ◌-◌, ◌*◌, not, bit_and, bit_or, ◌==◌, ltb, leb, if◌then◌else◌, List, ◌++◌, length, take,
  drop, replicate, Option, none, some,
}
use oonf_api.Base.Exec.{Exec, done, fault, out_of_bounds, ◌>>=◌}
use oonf_api.Base.Word.{u8, sub8}
use oonf_api.Rfc5444.Reader.Cursor.{Cursor, has_flag, read, read_block, get_u8}
use oonf_api.Rfc5444.Result.{
  RfcResult, okay, end_of_buffer, empty_addrblock, bad_msg_tailflags, bad_msg_prefixflags,
  addr_flag_head, addr_flag_fulltail, addr_flag_zerotail, addr_flag_singleplen, addr_flag_multiplen,
  max_addrlen,
}

-- `struct rfc5444_reader_addrblock_entry`, without its list node and its TLVs.
pub record AddrBlock : Type 0 where
  pub num_addr : ℕ
  pub mid_start : ℕ
  pub mid_len : ℕ
  pub prefixes : Option ℕ
  pub mid_src : ℕ
  pub addr : List ℕ
  pub prefixlen : ℕ
  pub drop_addr : List ℕ

-- The entry that `malloc_addrblock_entry` returns.
abbrev pub cleared_addrblock : AddrBlock
cleared_addrblock = record {
  num_addr = 0;
  mid_start = 0;
  mid_len = 0;
  prefixes = none;
  mid_src = 0;
  addr = replicate max_addrlen 0;
  prefixlen = 0;
  drop_addr = replicate 8 0;
}

-- `memcpy(&addr[at], …)` into the bytes of an address; a write behind their end is undefined.
unfoldable pub write_addr : List ℕ → ℕ → List ℕ → Exec (List ℕ)
write_addr addr at bytes =
    if leb (at + length bytes) (length addr)
    then done (take at addr ++ (bytes ++ drop (at + length bytes) addr))
    else fault out_of_bounds

-- A step either goes on with a block and a cursor, or returns with a result.
pub data Step : Type 0 where
  continue : AddrBlock → Cursor → Step
  return : RfcResult → AddrBlock → Cursor → Step

infixl 5 ◌>=>◌
abbrev pub ◌>=>◌ : Exec Step → (AddrBlock → Cursor → Exec Step) → Exec Step
m >=> f = m >>= λ s. elim s [ continue b c ↦ f b c | return r b c ↦ done (return r b c) ]

module _ (buf : List ℕ) (eob addr_len : ℕ) where
  -- The head of the addresses.
  unfoldable pub parse_head : ℕ → AddrBlock → Cursor → Exec Step
  unfolding get_u8 read_block write_addr
  parse_head flags b c = if not (has_flag flags addr_flag_head) then done (continue b c) else (do
    (n, c1) ← get_u8 buf eob c
    let b1 = record b { mid_start = n }
    if ltb eob (c1.ptr + n) then done (return end_of_buffer b1 c1) else (do
      head ← read_block buf c1.ptr n
      addr ← write_addr b1.addr 0 head
      done (
          continue (record b1 { addr = addr; mid_len = sub8 b1.mid_len n })
            (record c1 { ptr = c1.ptr + n }))))

  -- The tail of the addresses.
  unfoldable pub parse_tail : ℕ → AddrBlock → Cursor → Exec Step
  unfolding get_u8 read_block write_addr
  parse_tail flags b c =
      let masked = bit_and flags (bit_or addr_flag_fulltail addr_flag_zerotail) in
      if masked == addr_flag_zerotail
      then (do
        (n, c1) ← get_u8 buf eob c
        done (continue (record b { mid_len = sub8 b.mid_len n }) c1))
      else if masked == addr_flag_fulltail
      then (do
        (n, c1) ← get_u8 buf eob c
        if ltb eob (c1.ptr + n) then done (return end_of_buffer b c1) else (do
          tail ← read_block buf c1.ptr n
          addr ←
              (if ltb addr_len n
                then fault out_of_bounds
                else write_addr b.addr (addr_len - n) tail)
          done (
              continue (record b { addr = addr; mid_len = sub8 b.mid_len n })
                (record c1 { ptr = c1.ptr + n }))))
      else if not (masked == 0)
      then done (return bad_msg_tailflags b c)
      else done (continue b c)

  -- The middle parts of all addresses.
  unfoldable pub parse_mid : AddrBlock → Cursor → Exec Step
  parse_mid b c =
      let b1 = record b { mid_src = c.ptr } in
      let c1 = record c { ptr = c.ptr + b.mid_len * b.num_addr } in
      if ltb eob c1.ptr then done (return end_of_buffer b1 c1) else done (continue b1 c1)

  -- The prefix length or lengths.
  unfoldable pub parse_prefix : ℕ → AddrBlock → Cursor → Exec Step
  unfolding read
  parse_prefix flags b c =
      let masked = bit_and flags (bit_or addr_flag_singleplen addr_flag_multiplen) in
      if masked == 0
      then done (continue (record b { prefixlen = u8 (addr_len * 8) }) c)
      else if masked == addr_flag_singleplen
      then (do
        n ← read buf c.ptr
        done (continue (record b { prefixlen = n }) (record c { ptr = c.ptr + 1 })))
      else if masked == addr_flag_multiplen
      then done
          (continue (record b { prefixes = some c.ptr }) (record c { ptr = c.ptr + b.num_addr }))
      else done (return bad_msg_prefixflags b c)

-- The check at the end, and the result of an earlier return.
unfoldable pub finish_addrblock : ℕ → Step → RfcResult × AddrBlock × Cursor
finish_addrblock eob (continue b c) = (if ltb eob c.ptr then end_of_buffer else c.result, b, c)
finish_addrblock eob (return r b c) = (r, b, c)

-- `_parse_addrblock`: the result, the entry, and where the pointer stands.
unfoldable pub parse_addrblock :
    List ℕ → ℕ → ℕ → AddrBlock → ℕ → Exec (RfcResult × AddrBlock × Cursor)
unfolding parse_head parse_tail parse_mid parse_prefix finish_addrblock
parse_addrblock buf eob addr_len b ptr = do
  (num, c1) ← get_u8 buf eob (record { ptr = ptr; result = okay })
  let b1 = record b { num_addr = num }
  if num == 0 then done (empty_addrblock, b1, c1) else (do
    (flags, c2) ← get_u8 buf eob c1
    let b2 = record b1 { addr = replicate max_addrlen 0; mid_len = addr_len }
    s ←
        (parse_head buf eob addr_len flags b2 c2
          >=> parse_tail buf eob addr_len flags
          >=> parse_mid buf eob addr_len
          >=> parse_prefix buf eob addr_len flags)
    done (finish_addrblock eob s))
