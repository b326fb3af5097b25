-- ===== src/Rfc5444/Reader/Dispatch/Ending.antt =====
-- The calls of a message's consumers (src-api/rfc5444/rfc5444_reader.c) end.
use oonf_api.Base.Exec.{AnyFault, Ends, Ends-bind, after, either}
use oonf_api.Base.{ℕ, zero, suc, ◌+◌, Bool-cases, inl, inr, List, [], ◌∷◌, Option, none, some}
use oonf_api.Common.Netaddr.{Families, netaddr_from_binary_prefix}
use oonf_api.Rfc5444.Reader.AddrBlock.{AddrBlock}
use oonf_api.Rfc5444.Reader.Consumer.{ContextType, Consumer, test_addrbitarray}
use oonf_api.Rfc5444.Reader.Dispatch.{
  AddrEntry, Stage, Scene, assemble, prefix_of, scene_of, call_tlvs, call_start, call_address,
  handle_address, addr_rounds, block_rounds, schedule_msgtlv_consumer, schedule_msgaddr_consumer,
  with_type,
}
use oonf_api.Rfc5444.Reader.Fuel.{HasEnded, Value-bind}
use oonf_api.Rfc5444.Reader.Schedule.{Sched, schedule_tlvblock}
use oonf_api.Rfc5444.Reader.Schedule.Ending.{schedule_tlvblock-HasEnded}
use oonf_api.Rfc5444.Reader.Tlv.{TlvEntry}
use oonf_api.Rfc5444.Result.{RfcResult, is_okay}

module _ {W : Type 0} where
  scene_of-HasEnded : (o : Option (RfcResult × Sched W)) → HasEnded o → HasEnded (scene_of o)
  scene_of-HasEnded none h = h
  scene_of-HasEnded (some r) h = tt

  pub call_tlvs-HasEnded :
      (consumer : Consumer W) (buf : List ℕ) (idx : ℕ) (tlvs : List TlvEntry)
      (started : RfcResult × Stage W)
      → Ends AnyFault HasEnded (call_tlvs consumer buf idx tlvs started)
  unfolding call_tlvs
  call_tlvs-HasEnded consumer buf idx tlvs started =
      let s = started.1 in
      either HasEnded (is_okay started.0) _ _
        (λ go.
          Ends-bind AnyFault HasEnded HasEnded
            (schedule_tlvblock consumer buf idx tlvs s.context s.world) _
            (schedule_tlvblock-HasEnded consumer buf idx tlvs s.context s.world) scene_of-HasEnded)
        λ stop. tt

  pub schedule_msgtlv_consumer-HasEnded :
      (consumer : Consumer W) (buf : List ℕ) (tlvs : List TlvEntry) (s : Stage W)
      → Ends AnyFault HasEnded (schedule_msgtlv_consumer consumer buf tlvs s)
  unfolding schedule_msgtlv_consumer
  schedule_msgtlv_consumer-HasEnded consumer buf tlvs s =
      call_tlvs-HasEnded consumer buf 0 tlvs (call_start consumer (with_type ContextType.message s))

  module _ (af : Families) (consumer : Consumer W) (buf : List ℕ) where
    call_address-HasEnded :
        (i : ℕ) (b : AddrBlock) (s : Scene W) (stage : Stage W)
        → Ends AnyFault HasEnded (call_address af consumer buf i b s stage)
    unfolding call_address
    call_address-HasEnded i b s stage =
        let c = record consumer { entries = s.entries } in
        Value-bind (λ a. Unit) (λ a. Unit) (call_tlvs c buf i s.tlvs (call_start consumer stage)) _
          (call_tlvs-HasEnded c buf i s.tlvs (call_start consumer stage)) λ r u. tt

    handle_address-HasEnded :
        (i : ℕ) (b : AddrBlock) (s : Scene W)
        → Ends AnyFault HasEnded (handle_address af consumer buf i b s)
    unfolding handle_address
    handle_address-HasEnded i b s =
        let c = s.stage.context in
        either HasEnded (test_addrbitarray b.drop_addr i) _ _ (λ skip. tt)
          λ go. after HasEnded (assemble buf i b) _ λ b1.
            after HasEnded (prefix_of buf i b1) _ λ plen.
              after HasEnded (netaddr_from_binary_prefix af c.addr b1.addr c.addr_len 0 plen) _ λ a.
                call_address-HasEnded i b1 s
                  (record (s.stage) { context = record c { addr = a.0 } })

    addr_rounds-HasEnded :
        (n i : ℕ) (b : AddrBlock) (s : Scene W)
        → Ends AnyFault HasEnded (addr_rounds af consumer buf n i b s)
    unfolding addr_rounds
    addr_rounds-HasEnded zero i b s = tt
    addr_rounds-HasEnded (suc n) i b s =
        Value-bind (λ a. Unit) (λ a. Unit) (handle_address af consumer buf i b s) _
          (handle_address-HasEnded i b s)
          λ r u. elim (Bool-cases (is_okay r.0)) [
            | inl good ↦ rw good (addr_rounds-HasEnded n (i + 1) r.1 r.2)
            | inr bad ↦ rw bad tt
          ]

    block_rounds-HasEnded :
        (addrs : List AddrEntry) (s : Scene W)
        → Ends AnyFault HasEnded (block_rounds af consumer buf addrs s)
    unfolding block_rounds
    block_rounds-HasEnded [] s = tt
    block_rounds-HasEnded (a ∷ addrs) s =
        let s1 : Scene W = record s { tlvs = a.tlvs } in
        Value-bind (λ a. Unit) (λ a. Unit)
          (addr_rounds af consumer buf a.block.num_addr 0 a.block s1) _
          (addr_rounds-HasEnded a.block.num_addr 0 a.block s1)
          λ r u. elim (Bool-cases (is_okay r.0)) [
            | inr bad ↦ rw bad tt
            | inl good ↦ rw good (
                Value-bind (λ a. Unit) (λ a. Unit) (block_rounds af consumer buf addrs r.2) _
                  (block_rounds-HasEnded addrs r.2) λ q v. tt)
          ]

    pub schedule_msgaddr_consumer-HasEnded :
        (addrs : List AddrEntry) (s : Stage W)
        → Ends AnyFault HasEnded (schedule_msgaddr_consumer af consumer buf addrs s)
    unfolding schedule_msgaddr_consumer
    schedule_msgaddr_consumer-HasEnded addrs s = block_rounds-HasEnded addrs _
