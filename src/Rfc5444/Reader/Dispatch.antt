-- ===== src/Rfc5444/Reader/Dispatch.antt =====
-- How the packet reader (src-api/rfc5444/rfc5444_reader.c) calls the consumers of a message: the
-- callbacks for a message, its addresses, and the end of a message.
pub mod Ending
use oonf_api.Base.Exec.{Exec, done, ◌>>=◌}
use oonf_api.Base.Int.{ltb_ℤ}
use oonf_api.Base.{
  ℕ, zero, suc, ◌+◌, ◌*◌, Bool, true, false, not, ◌&&◌, ◌||◌, ◌==◌, if◌then◌else◌, List, [], ◌∷◌,
  Option, none, some,
}
use oonf_api.Common.Netaddr.{Netaddr, Families, netaddr_from_binary_prefix}
use oonf_api.Rfc5444.Reader.AddrBlock.{AddrBlock, write_addr}
use oonf_api.Rfc5444.Reader.Consumer.{
  ContextType, Context, ConsumerEntry, Reply, Consumer, set_addr_bitarray, test_addrbitarray,
}
use oonf_api.Rfc5444.Reader.Cursor.{read, read_block}
use oonf_api.Rfc5444.Reader.Fuel.{with_value, ◌>>?◌}
use oonf_api.Rfc5444.Reader.Schedule.{Sched, schedule_tlvblock}
use oonf_api.Rfc5444.Reader.Tlv.{TlvEntry}
use oonf_api.Rfc5444.Result.{RfcResult, okay, drop_address, is_okay, result_value}

abbrev pub is_drop_address : RfcResult → Bool
is_drop_address drop_address = true
is_drop_address _ = false

-- `if (r > result) { result = r; }`
unfoldable pub worse : RfcResult → RfcResult → RfcResult
worse result r = if ltb_ℤ (result_value result) (result_value r) then r else result

-- `struct rfc5444_reader_addrblock_entry`: an address block and its TLVs.
pub record AddrEntry : Type 0 where
  pub block : AddrBlock
  pub tlvs : List TlvEntry

-- What every callback gets and may change: the context and the application's state.
pub record Stage (W : Type 0) : Type 0 where
  pub context : Context
  pub world : W

-- The same with the TLVs and the entries of the consumer that a walk goes over.
pub record Scene (W : Type 0) : Type 0 where
  pub tlvs : List TlvEntry
  pub entries : List ConsumerEntry
  pub stage : Stage W

-- The assembly of the address with the number `i` in the memory of the block.
unfoldable pub assemble : List ℕ → ℕ → AddrBlock → Exec AddrBlock
unfolding read_block write_addr
assemble buf i b = do
  mid ← read_block buf (b.mid_src + b.mid_len * i) b.mid_len
  addr ← write_addr b.addr b.mid_start mid
  done (record b { addr = addr })

unfoldable pub prefix_of : List ℕ → ℕ → AddrBlock → Exec ℕ
unfolding read
prefix_of buf i b = elim b.prefixes [ none ↦ done b.prefixlen | some p ↦ read buf (p + i) ]

module _ {W : Type 0} where
  unfoldable pub take_effect : Reply W → Stage W → Stage W
  take_effect reply s = record {
    context = record (s.context) { do_not_forward = s.context.do_not_forward || reply.prevent };
    world = reply.world;
  }

  abbrev pub with_type : ContextType → Stage W → Stage W
  with_type t s = record s { context = record (s.context) { context_type = t } }

  unfoldable pub call_start : Consumer W → Stage W → RfcResult × Stage W
  unfolding take_effect
  call_start consumer s = elim consumer.start_callback [
    | none ↦ (okay, s)
    | some callback ↦ let reply = callback s.context s.world in (reply.result, take_effect reply s)
  ]

  unfoldable pub call_end : Consumer W → RfcResult → Stage W → RfcResult × Stage W
  unfolding take_effect worse
  call_end consumer result s = elim consumer.end_callback [
    | none ↦ (result, s)
    | some callback ↦
        let reply = callback s.context (not (is_okay result)) s.world in
        (worse result reply.result, take_effect reply s)
  ]

  abbrev pub scene_of : Option (RfcResult × Sched W) → Option (RfcResult × Scene W)
  scene_of none = none
  scene_of (some r) = some (
    r.0,
    record {
      tlvs = r.1.tlvs;
      entries = r.1.entries;
      stage = record { context = r.1.context; world = r.1.world };
    },
  )

  -- The walk over a TLV block, unless the callback in front of it has returned an error or a drop.
  unfoldable pub call_tlvs :
      Consumer W
      → List ℕ
      → ℕ
      → List TlvEntry
      → RfcResult × Stage W
      → Exec (Option (RfcResult × Scene W))
  unfolding schedule_tlvblock
  call_tlvs consumer buf idx tlvs started =
      let (result, s) = started in
      if is_okay result
      then schedule_tlvblock consumer buf idx tlvs s.context s.world >>= (λ o. done (scene_of o))
      else done (some (result, record { tlvs = tlvs; entries = consumer.entries; stage = s }))

  unfoldable pub schedule_msgtlv_consumer :
      Consumer W → List ℕ → List TlvEntry → Stage W → Exec (Option (RfcResult × Scene W))
  unfolding call_tlvs call_start
  schedule_msgtlv_consumer consumer buf tlvs s =
      call_tlvs consumer buf 0 tlvs (call_start consumer (with_type ContextType.message s))

  -- The result for one address: a drop of the address is noted in the block.
  unfoldable pub note_address :
      ℕ → AddrBlock → Scene W → RfcResult × Stage W → RfcResult × AddrBlock × Scene W
  unfolding set_addr_bitarray
  note_address i b s ended =
      let (result, stage) = ended in
      if is_drop_address result
      then (
        okay,
        record b { drop_addr = set_addr_bitarray b.drop_addr i },
        record s { stage = stage },
      )
      else (result, b, record s { stage = stage })

  module _ (af : Families) (consumer : Consumer W) (buf : List ℕ) where
    unfoldable pub call_address :
        ℕ → AddrBlock → Scene W → Stage W → Exec (Option (RfcResult × AddrBlock × Scene W))
    unfolding call_start call_tlvs call_end note_address
    call_address i b s stage =
        call_tlvs (record consumer { entries = s.entries }) buf i s.tlvs (call_start consumer stage)
        >>? (λ r. done (some (note_address i b r.1 (call_end consumer r.0 r.1.stage))))

    unfoldable pub handle_address :
        ℕ → AddrBlock → Scene W → Exec (Option (RfcResult × AddrBlock × Scene W))
    unfolding test_addrbitarray assemble prefix_of netaddr_from_binary_prefix call_address
    handle_address i b s = if test_addrbitarray b.drop_addr i then done (some (okay, b, s)) else (do
      b1 ← assemble buf i b
      plen ← prefix_of buf i b1
      let c = s.stage.context
      (addr, rc) ← netaddr_from_binary_prefix af c.addr b1.addr c.addr_len 0 plen
      call_address i b1 s (record (s.stage) { context = record c { addr = addr } }))

    -- The addresses of a block from the number `i` on.
    unfoldable pub addr_rounds :
        ℕ → ℕ → AddrBlock → Scene W → Exec (Option (RfcResult × AddrBlock × Scene W))
    unfolding handle_address
    addr_rounds zero i b s = done (some (okay, b, s))
    addr_rounds (suc n) i b s = handle_address i b s >>? (λ r. elim (is_okay r.0) [
      | true ↦ addr_rounds n (i + 1) r.1 r.2
      | false ↦ done (some r)
    ])

    -- The loop over the address blocks.
    unfoldable pub block_rounds :
        List AddrEntry → Scene W → Exec (Option (RfcResult × List AddrEntry × Scene W))
    unfolding addr_rounds
    block_rounds [] s = done (some (okay, [], s))
    block_rounds (a ∷ addrs) s =
        addr_rounds a.block.num_addr 0 a.block (record s { tlvs = a.tlvs }) >>? (λ r.
          let a' : AddrEntry = record { block = r.1; tlvs = r.2.tlvs } in
          elim (is_okay r.0) [
            | true ↦ block_rounds addrs r.2 >>? (λ q. done (some (q.0, a' ∷ q.1, q.2)))
            | false ↦ done (some (r.0, a' ∷ addrs, r.2))
          ])

    unfoldable pub schedule_msgaddr_consumer :
        List AddrEntry → Stage W → Exec (Option (RfcResult × List AddrEntry × Scene W))
    unfolding block_rounds
    schedule_msgaddr_consumer addrs s =
        block_rounds addrs (record {
          tlvs = [];
          entries = consumer.entries;
          stage = with_type ContextType.address s;
        })

  abbrev pub wants : Consumer W → ℕ → Bool
  wants c msg_type = c.default_msg_consumer || c.msg_id == msg_type

  -- The loop over a range of the consumers, from its end.
  unfoldable pub end_rounds : List (Consumer W) → RfcResult → Stage W → RfcResult × Stage W
  unfolding call_end
  end_rounds [] result s = (result, s)
  end_rounds (c ∷ consumers) result s =
      let later = end_rounds consumers result s in
      if not c.addrblock_consumer && wants c later.1.context.msg_type
      then call_end c later.0 later.1
      else later

  unfoldable pub schedule_end_message_cbs :
      List (Consumer W) → RfcResult → Stage W → RfcResult × Stage W
  unfolding end_rounds
  schedule_end_message_cbs range result s =
      end_rounds range result (with_type ContextType.message s)
