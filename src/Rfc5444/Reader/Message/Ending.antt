-- ===== src/Rfc5444/Reader/Message/Ending.antt =====
-- `_handle_message` (src-api/rfc5444/rfc5444_reader.c) ends, with the pointer behind the message.
use oonf_api.Base.Exec.{AnyFault, Ends, Ends-bind, either}
use oonf_api.Base.{
  some_inj, ℕ, zero, suc, ◌+◌, ◌≤◌, ◌≡◌, refl, sym, ◌∙◌, true, false, Bool-cases, inl, inr, ◌⊎◌,
  not, ltb, if◌then◌else◌, List, [], length, get_elem?-cases, Option, none, some, arith,
}
use mathlib.Core.Bool.{false≢true}
use oonf_api.Common.Netaddr.{Families}
use oonf_api.Rfc5444.Reader.Consumer.{Consumer}
use oonf_api.Rfc5444.Reader.Dispatch.Ending.{
  schedule_msgtlv_consumer-HasEnded, schedule_msgaddr_consumer-HasEnded,
}
use oonf_api.Rfc5444.Reader.Dispatch.{
  Stage, wants, schedule_msgtlv_consumer, schedule_msgaddr_consumer,
}
use oonf_api.Rfc5444.Reader.Fuel.{HasEnded, Value, Value-bind}
use oonf_api.Rfc5444.Reader.Message.{
  Reader, Handled, MsgRun, close_earlier, consume, consumer_rounds, finish_rounds, is_drop_message,
  cleanup_message, start_run, handle_body, handle_message,
}
use oonf_api.Rfc5444.Reader.Parts.Ending.{PartsEnd, parse_parts-PartsEnd, false_of_not}
use oonf_api.Rfc5444.Reader.Parts.Fields.{HeaderEnd, parse_msg_header-HeaderEnd}
use oonf_api.Rfc5444.Reader.Parts.{parse_msg_header, Parts, parse_parts, free_parts}
use oonf_api.Rfc5444.Reader.Verdict.{is_drop}
use oonf_api.Rfc5444.Result.{RfcResult, okay, drop_message, end_of_buffer, is_okay}

-- An error is not turned into okay at the end of the message.
error_stays :
    (r : RfcResult)
    → is_drop r ≡ false
    → is_okay r ≡ false
    → is_okay (if is_drop_message r then okay else r) ≡ false
error_stays drop_message h k = absurd (false≢true (sym h))
error_stays r h k = k

module _ {W : Type 0} where
  -- What is known of a message that has been handled: the memory is as before, and without an error
  -- the pointer is at least two bytes on, inside the packet.
  pub record MessageEnd (parser : Reader W) (eob start : ℕ) (h : Handled W) : Type 0 where
    pub kept : h.parser.memory ≡ parser.memory
    pub no_end : h.end ≡ none → is_okay h.result ≡ false
    pub moved : (p : ℕ) → h.end ≡ some p → is_okay h.result ≡ true → (start + 2 ≤ p) × (p ≤ eob)

  module _ (af : Families) (buf : List ℕ) where
    consume-HasEnded :
        (at : ℕ) (c : Consumer W) (run : MsgRun W)
        → Ends AnyFault HasEnded (consume af buf at c run)
    unfolding consume
    consume-HasEnded at c run = elim (Bool-cases c.addrblock_consumer) [
      | inl addr ↦
          rw (addr, consume)
            (Value-bind (λ a. Unit) (λ a. Unit)
              (schedule_msgaddr_consumer af c buf run.addrs run.stage) _
              (schedule_msgaddr_consumer-HasEnded af c buf run.addrs run.stage) λ r u. tt)
      | inr msg ↦
          rw (msg, consume)
            (Value-bind (λ a. Unit) (λ a. Unit) (schedule_msgtlv_consumer c buf run.tlvs run.stage)
              _ (schedule_msgtlv_consumer-HasEnded c buf run.tlvs run.stage) λ r u. tt)
    ]

    consumer_rounds-HasEnded :
        (n at : ℕ) (run : MsgRun W) → Ends AnyFault HasEnded (consumer_rounds af buf n at run)
    unfolding consumer_rounds
    consumer_rounds-HasEnded zero at run = tt
    consumer_rounds-HasEnded (suc n) at run = elim (get_elem?-cases run.consumers at) [
      | inl h ↦ rw (h.0, consumer_rounds) tt
      | inr h ↦
          let c = h.0 in
          let closed = close_earlier c run in
          rw (h.1, consumer_rounds)
            (elim (Bool-cases (wants c run.stage.context.msg_type)) [
              | inr other ↦ rw other (consumer_rounds-HasEnded n (at + 1) run)
              | inl wanted ↦ rw wanted (elim (Bool-cases (is_okay closed.0)) [
                | inr stop ↦ rw stop tt
                | inl go ↦ rw go (
                    Value-bind (λ a. Unit) (λ a. Unit) (consume af buf at c closed.1) _
                      (consume-HasEnded at c closed.1)
                      λ r u. elim (Bool-cases (is_okay r.0)) [
                        | inl good ↦ rw good (consumer_rounds-HasEnded n (at + 1) r.1)
                        | inr bad ↦ rw bad tt
                      ])
              ])
            ])
    ]

    module _ (parser : Reader W) (eob start : ℕ) (fits : eob ≤ length buf) where
      -- Behind a label with `end` set.
      cleanup_message-MessageEnd :
          (end : ℕ) (memory : ℕ) (r : RfcResult × MsgRun W)
          → memory ≡ parser.memory
          → ((start + 2 ≤ end) × (end ≤ eob)) ⊎ ((is_drop r.0 ≡ false) × (is_okay r.0 ≡ false))
          → MessageEnd parser eob start (cleanup_message parser buf start end memory r)
      unfolding cleanup_message
      cleanup_message-MessageEnd end memory r same why = record {
        kept = same;
        no_end = λ e. absurd cc;
        moved = λ p e good. elim why [
          | inl two ↦ let same_end : end ≡ p = some_inj e in (omega arith, omega arith)
          | inr bad ↦ absurd (false≢true (sym (error_stays r.0 bad.0 bad.1) ∙ good))
        ];
      }

      handle_body-MessageEnd :
          (end ptr : ℕ) (s : Stage W)
          → start ≤ ptr
          → end ≤ eob
          → Ends AnyFault
              (Value (MessageEnd parser eob start))
              (handle_body af parser buf start end ptr s)
      unfolding handle_body
      handle_body-MessageEnd end ptr s le in_packet =
          let Q : Option (Handled W) → Type 0 = Value (MessageEnd parser eob start) in
          Value-bind (PartsEnd buf end fits' parser.memory ptr) (MessageEnd parser eob start)
            (parse_parts buf end s.context.addr_len parser.memory ptr) _
            (parse_parts-PartsEnd buf end fits' s.context.addr_len parser.memory ptr)
            λ p h.
              let run = start_run parser p.1 s in
              elim (Bool-cases (is_okay p.0)) [
                | inr bad ↦ rw bad (
                    cleanup_message-MessageEnd end (free_parts p.1) (p.0, run) h.kept
                      (inr (h.verdict, bad)))
                | inl good ↦ rw good (
                    Value-bind (λ a. Unit) (MessageEnd parser eob start)
                      (consumer_rounds af buf (length parser.message_consumer) 0 run) _
                      (consumer_rounds-HasEnded (length parser.message_consumer) 0 run)
                      λ r u.
                        cleanup_message-MessageEnd end (free_parts p.1) (finish_rounds r) h.kept
                          (inl (omega (arith, h.room good, le), in_packet)))
              ]
        where
          fits' : end ≤ length buf
          fits' = omega arith

      pub handle_message-MessageEnd :
          (stage : Stage W)
          → Ends AnyFault
              (Value (MessageEnd parser eob start))
              (handle_message af parser buf eob start stage)
      unfolding handle_message
      handle_message-MessageEnd stage =
          let Q : Option (Handled W) → Type 0 = Value (MessageEnd parser eob start) in
          Ends-bind AnyFault (HeaderEnd start) Q (parse_msg_header af buf eob stage.context start) _
            (parse_msg_header-HeaderEnd af buf eob start fits stage.context)
            λ h k.
              let s : Stage W = record stage { context = h.context } in
              let end = start + h.size in
              let result = if ltb eob end then end_of_buffer else h.cursor.result in
              let unparsed : Parts = record {
                tlvs = [];
                addrs = [];
                memory = parser.memory;
                ptr = h.cursor.ptr;
              } in
              either Q (not h.has_end) _ _
                (λ early. record {
                  kept = refl;
                  no_end = λ e. k.no_end (false_of_not h.has_end early);
                  moved = λ p e good. absurd cc;
                })
                λ set. elim (Bool-cases (ltb eob end)) [
                  | inl over ↦ rw over (
                      cleanup_message-MessageEnd end parser.memory
                        (end_of_buffer, start_run parser unparsed s) refl (inr (refl, refl)))
                  | inr within ↦ rw within (
                      either Q (not (is_okay h.cursor.result)) _ _
                        (λ bad.
                          cleanup_message-MessageEnd end parser.memory
                            (h.cursor.result, start_run parser unparsed s) refl
                            (inr (k.verdict, false_of_not (is_okay h.cursor.result) bad)))
                        λ good. handle_body-MessageEnd end h.cursor.ptr s k.forward (ground arith))
                ]
