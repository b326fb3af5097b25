-- ===== src/Rfc5444/Reader/Packet/Ending.antt =====
-- `rfc5444_reader_handle_packet` (src-api/rfc5444/rfc5444_reader.c) ends, and gives back its memory.
use oonf_api.Base.Exec.{Exec, AnyFault, Ends, Ends-bind, after, either}
use oonf_api.Base.{
  ℕ, zero, suc, ◌+◌, ◌-◌, ◌≤◌, ◌<◌, ◌≡◌, refl, sym, ap, subst, Bool, true, false, Bool-cases, inl,
  inr, not, ◌&&◌, and_both, ◌||◌, ltb, List, [], length, get_elem?-cases, Option, none, some, arith,
}
use oonf_api.Common.Netaddr.{Families}
use oonf_api.Rfc5444.Reader.Consumer.{Consumer}
use oonf_api.Rfc5444.Reader.Cursor.{has_flag}
use oonf_api.Rfc5444.Reader.Dispatch.Ending.{call_tlvs-HasEnded}
use oonf_api.Rfc5444.Reader.Dispatch.{Stage, call_start, call_tlvs}
use oonf_api.Rfc5444.Reader.Fuel.{HasEnded, Value, Value-bind}
use oonf_api.Rfc5444.Reader.Message.Ending.{MessageEnd, handle_message-MessageEnd}
use oonf_api.Rfc5444.Reader.Message.{Reader, Handled, handle_message}
use oonf_api.Rfc5444.Reader.Packet.{
  PktRun, PktEnd, is_some, parse_pkt_header, consume_packet, packet_rounds, msg_rounds,
  next_message, handle_messages, cleanup_packet, handle_packet_body, rfc5444_reader_handle_packet,
}
use oonf_api.Rfc5444.Reader.Parts.Ending.{Parsed, parse_tlvblock-Parsed, false_of_not}
use oonf_api.Rfc5444.Reader.Tlv.{TlvEntry}
use oonf_api.Rfc5444.Reader.TlvBlock.{parse_tlvblock}
use oonf_api.Rfc5444.Result.{RfcResult, is_okay, pkt_flag_tlv}

module _ {W : Type 0} where
  consume_packet-HasEnded :
      (buf : List ℕ) (has_tlv : Bool) (at : ℕ) (c : Consumer W) (run : PktRun W)
      → Ends AnyFault HasEnded (consume_packet buf has_tlv at c run)
  unfolding consume_packet
  consume_packet-HasEnded buf has_tlv at c run =
      let r = call_start c run.stage in
      either HasEnded
        (not (is_okay r.0) || not (has_tlv && (is_some c.tlv_callback || is_some c.block_callback)))
        _ _ (λ skip. tt)
        λ go.
          Value-bind (λ a. Unit) (λ a. Unit) (call_tlvs c buf 0 run.tlvs r) _
            (call_tlvs-HasEnded c buf 0 run.tlvs r) λ q u. tt

  packet_rounds-HasEnded :
      (n at : ℕ) (buf : List ℕ) (has_tlv : Bool) (run : PktRun W)
      → Ends AnyFault HasEnded (packet_rounds n at buf has_tlv run)
  unfolding packet_rounds
  packet_rounds-HasEnded zero at buf has_tlv run = tt
  packet_rounds-HasEnded (suc n) at buf has_tlv run = elim (get_elem?-cases run.consumers at) [
    | inl h ↦ rw (h.0, packet_rounds) tt
    | inr h ↦
        rw (h.1, packet_rounds)
          (Value-bind (λ a. Unit) (λ a. Unit) (consume_packet buf has_tlv at h.0 run) _
            (consume_packet-HasEnded buf has_tlv at h.0 run)
            λ r u. elim (Bool-cases (is_okay r.0)) [
              | inl good ↦ rw good (packet_rounds-HasEnded n (at + 1) buf has_tlv r.1)
              | inr bad ↦ rw bad tt
            ])
  ]

  -- The memory is as before.
  abbrev pub Kept : ℕ → PktEnd W → Type 0
  Kept memory e = e.parser.memory ≡ memory

  next_message-Kept :
      (parser : Reader W) (h : Handled W) (again : ℕ → Exec (Option (PktEnd W))) (end : Option ℕ)
      → h.parser.memory ≡ parser.memory
      → ((p : ℕ) → end ≡ some p → Ends AnyFault (Value (Kept parser.memory)) (again p))
      → Ends AnyFault (Value (Kept parser.memory)) (next_message again h end)
  next_message-Kept parser h again none same k =
      either (Value (Kept parser.memory)) (is_okay h.result) _ _ (λ good. tt) (λ bad. same)
  next_message-Kept parser h again (some p) same k = k p refl

  module _ (af : Families) (buf : List ℕ) (eob : ℕ) (fits : eob ≤ length buf) where
    msg_rounds-Kept :
        (fuel : ℕ) (result : RfcResult) (parser : Reader W) (ptr : ℕ) (s : Stage W)
        → 0 < fuel
        → (is_okay result ≡ true → eob - ptr < fuel)
        → Ends AnyFault
            (Value (Kept parser.memory))
            (msg_rounds af buf eob fuel result parser ptr s)
    unfolding msg_rounds
    msg_rounds-Kept zero result parser ptr s some_fuel enough = absurd (omega arith)
    msg_rounds-Kept (suc fuel) result parser ptr s some_fuel enough =
        elim (Bool-cases (is_okay result && ltb ptr eob)) [
          | inr stop ↦ rw (stop, msg_rounds) refl
          | inl go ↦
              let okay_now = (and_both (is_okay result) (ltb ptr eob) go).0 in
              let in_front = (and_both (is_okay result) (ltb ptr eob) go).1 in
              rw (go, msg_rounds)
                (Value-bind (MessageEnd parser eob ptr) (Kept parser.memory)
                  (handle_message af parser buf eob ptr s) _
                  (handle_message-MessageEnd af buf parser eob ptr fits s)
                  λ h k.
                    next_message-Kept parser h
                      (λ p. msg_rounds af buf eob fuel h.result h.parser p h.stage) h.end k.kept
                      λ p at. rw (sym k.kept) (
                        msg_rounds-Kept fuel h.result h.parser p h.stage
                          (ground (arith, enough okay_now, in_front))
                          (λ good.
                            ground (arith, (k.moved p at good).0, enough okay_now, in_front))))
        ]

    handle_packet_body-Kept :
        (parser : Reader W) (has_tlv : Bool) (tlvs : List TlvEntry) (ptr : ℕ) (s : Stage W)
        → Ends AnyFault
            (Value (Kept (parser.memory + length tlvs)))
            (handle_packet_body af buf eob parser has_tlv tlvs ptr s)
    unfolding handle_packet_body handle_messages cleanup_packet
    handle_packet_body-Kept parser has_tlv tlvs ptr s =
        let run : PktRun W = record {
          consumers = parser.packet_consumer;
          started = 0;
          tlvs = tlvs;
          stage = s;
        } in
        Value-bind (λ a. Unit) (Kept (parser.memory + length tlvs))
          (packet_rounds (length parser.packet_consumer) 0 buf has_tlv run) _
          (packet_rounds-HasEnded (length parser.packet_consumer) 0 buf has_tlv run)
          λ r u.
            let parser1 : Reader W = record parser { packet_consumer = r.1.consumers } in
            Value-bind (Kept parser.memory) (Kept (parser.memory + length tlvs))
              (msg_rounds af buf eob (suc eob) r.0 parser1 ptr r.1.stage) _
              (msg_rounds-Kept (suc eob) r.0 parser1 ptr r.1.stage (omega arith)
                (λ good. omega arith))
              λ e k. ap (λ m. m + length tlvs) k

-- For all consumers with all their callbacks, a packet that lies in a buffer is handled to its end
-- within the rounds given to the loops, or the code leaves an object or divides by zero; and where
-- it returns, on every path, as much memory can be allocated as before the packet.
pub rfc5444_reader_handle_packet-Kept :
    {W : Type 0} (af : Families) (buf : List ℕ) (eob : ℕ) (parser : Reader W) (world : W)
    → eob ≤ length buf
    → Ends AnyFault
        (Value (Kept parser.memory))
        (rfc5444_reader_handle_packet af buf eob parser world)
unfolding rfc5444_reader_handle_packet
rfc5444_reader_handle_packet-Kept {W} af buf eob parser world fits =
    let Q : Option (PktEnd W) → Type 0 = Value (Kept parser.memory) in
    after Q (parse_pkt_header buf eob) _ λ h.
      let s : Stage W = record { context = h.0; world = world } in
      either Q (not (is_okay h.1.result)) _ _ (λ bad. refl)
        λ good.
          either Q (not (has_flag h.0.pkt_flags pkt_flag_tlv)) _ _
            (λ no_tlv.
              subst
                (λ m.
                  Ends AnyFault (Value (Kept m))
                    (handle_packet_body af buf eob parser false [] h.1.ptr s))
                no_tlvs (handle_packet_body-Kept af buf eob fits parser false [] h.1.ptr s))
            λ tlv.
              Ends-bind AnyFault (Parsed eob parser.memory h.1.ptr) Q
                (parse_tlvblock buf eob 0 (record { tlvs = []; memory = parser.memory }) h.1.ptr) _
                (parse_tlvblock-Parsed buf eob fits 0 parser.memory h.1.ptr)
                λ t p.
                  either Q (not (is_okay t.1.result)) _ _
                    (λ bad. p.failed (false_of_not (is_okay t.1.result) bad))
                    λ fine.
                      let parser1 : Reader W = record parser { memory = t.0.memory } in
                      subst
                        (λ m.
                          Ends AnyFault (Value (Kept m))
                            (handle_packet_body af buf eob parser1 true t.0.tlvs t.1.ptr s))
                        p.kept
                        (handle_packet_body-Kept af buf eob fits parser1 true t.0.tlvs t.1.ptr s)
  where
    no_tlvs : parser.memory + 0 ≡ parser.memory
    no_tlvs = omega arith
