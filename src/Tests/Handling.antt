-- ===== src/Tests/Handling.antt =====
-- Packets, messages and consumers (src-api/rfc5444/rfc5444_reader.c) at concrete inputs.
use oonf_api.Base.Exec.{Exec, done, AnyFault, NoFault, Ends}
use oonf_api.Base.Int.{pos}
use oonf_api.Base.{
  length, ap, some_inj, Every-nil, Every-cons, ℕ, ◌+◌, ◌≡◌, refl, Bool, true, false, List, [], ◌∷◌,
  map, Option, none, some, arith,
}
use oonf_api.Common.Netaddr.{Families}
use oonf_api.Rfc5444.Reader.Consumer.Order.{AreUp, count_if, sort_entries-AreUp}
use oonf_api.Rfc5444.Reader.Consumer.{
  ConsumerEntry, Consumer, fix_length, sort_entries, reverse_entries, compare_tlvtypes,
}
use oonf_api.Rfc5444.Reader.Dispatch.{Stage}
use oonf_api.Rfc5444.Reader.Fuel.{HasEnded, Value}
use oonf_api.Rfc5444.Reader.Message.Malformed.{handle_body_malformed}
use oonf_api.Rfc5444.Reader.Message.{Reader, handle_body}
use oonf_api.Rfc5444.Reader.Packet.Ending.{Kept, rfc5444_reader_handle_packet-Kept}
use oonf_api.Rfc5444.Reader.Packet.{cleared_context, PktEnd, rfc5444_reader_handle_packet}
use oonf_api.Rfc5444.Reader.Parts.{parse_parts}
use oonf_api.Rfc5444.Reader.Schedule.Constraints.{AllLinked, schedule_loop-AllLinked_lem}
use oonf_api.Rfc5444.Reader.Schedule.Uncovered.{LoopFailed, mandatory_uncovered}
use oonf_api.Rfc5444.Reader.Linking.{is_index_match}
use oonf_api.Rfc5444.Reader.Schedule.Safe.{schedule_tlvblock-NoFault}
use oonf_api.Rfc5444.Reader.Schedule.Values.{IsReadable, IsRoomy}
use mathlib.Core.Bool.{false≢true}
use oonf_api.Rfc5444.Reader.Schedule.{schedule_tlvblock, schedule_loop, start_sched}
use oonf_api.Rfc5444.Reader.Tlv.{TlvEntry, cleared_entry}
use oonf_api.Rfc5444.Result.{RfcResult, okay, drop_msg_but_forward, end_of_buffer}

abbrev system : Families
system = record {
  inet = 2;
  inet6 = 10;
  max_family = 45;
  inet_some = omega arith;
  inet6_some = omega arith;
  inet_ne = omega arith;
  inet_lt = omega arith;
  inet6_lt = omega arith;
  room = omega arith;
}

-- An entry for TLVs of a type, that must be there.
abbrev required : ℕ → ConsumerEntry
required t = record {
  mandatory = true;
  tlv_type = t;
  type_ext = 0;
  match_type_ext = false;
  min_length = 2;
  max_length = 0;
  match_length = false;
  copy_value = none;
  tlv = [];
  drop = false;
}

-- A consumer of all messages that counts them, and returns a result for each.
abbrev counter : RfcResult → List ConsumerEntry → Consumer ℕ
counter result entries = record {
  order = pos 0;
  default_msg_consumer = true;
  msg_id = 0;
  addrblock_consumer = false;
  entries = entries;
  start_callback =
      some (λ c n. record { result = result; world = n + 1; prevent = false; drops = [] });
  end_callback = none;
  tlv_callback = none;
  block_callback = none;
  block_callback_failed_constraints = none;
}

abbrev tlv_for : ℕ → TlvEntry
tlv_for i = record cleared_entry { tlv_type = 3; order = 0x300; index1 = i; index2 = i }

mandatory_uncovered_example :
    Ends AnyFault
      (λ o. HasEnded o × LoopFailed o)
      (schedule_loop 4 (counter okay (required 3 ∷ [])) [] 0 (
        start_sched
          (counter okay (required 3 ∷ []))
          (tlv_for 1 ∷ tlv_for 0 ∷ [])
          cleared_context
          0))
unfolding is_index_match compare_tlvtypes
mandatory_uncovered_example =
    mandatory_uncovered (counter okay (required 3 ∷ [])) [] 0 (tlv_for 1) (tlv_for 0 ∷ [])
      (required 3) [] cleared_context 0 refl refl refl refl

-- The second TLV is for the address.
second_fits : is_index_match (tlv_for 0) 0 ≡ true
unfolding is_index_match
second_fits = refl

schedule_loop-AllLinked_lem_example :
    Ends AnyFault
      (λ o. HasEnded o × AllLinked o)
      (schedule_loop 4 (counter okay (required 3 ∷ required 4 ∷ [])) [] 1 (
        start_sched
          (counter okay (required 3 ∷ required 4 ∷ []))
          (tlv_for 1 ∷ [])
          cleared_context
          0))
schedule_loop-AllLinked_lem_example =
    schedule_loop-AllLinked_lem (counter okay (required 3 ∷ required 4 ∷ [])) [] 1 (tlv_for 1 ∷ [])
      cleared_context 0

-- An entry with a buffer of two bytes for the value, and a TLV with a value of two bytes.
abbrev copied : ConsumerEntry
copied = record (required 3) { max_length = 2; copy_value = some (0 ∷ 0 ∷ []) }

abbrev valued : TlvEntry
valued = record (tlv_for 0) { length = 2; single_value = some 1; value = some 1 }

readable : IsReadable 3 valued
readable = record { one = λ m n. (1, refl, omega arith); many = λ m n. absurd (false≢true m) }

roomy : IsRoomy copied
roomy target e = omega (arith, ap length (some_inj e))

schedule_tlvblock-NoFault_example : Ends NoFault HasEnded (
    schedule_tlvblock
      (counter okay (copied ∷ []))
      (5 ∷ 6 ∷ 7 ∷ [])
      0
      (valued ∷ [])
      cleared_context
      0)
schedule_tlvblock-NoFault_example =
    schedule_tlvblock-NoFault (counter okay (copied ∷ [])) (5 ∷ 6 ∷ 7 ∷ []) 0 (valued ∷ [])
      cleared_context 0 (Every-cons (IsReadable 3) valued [] readable (Every-nil (IsReadable 3)))
      (Every-cons IsRoomy copied [] roomy (Every-nil IsRoomy))

abbrev unsorted : List ConsumerEntry
unsorted = required 4 ∷ required 3 ∷ required 4 ∷ []

sort_entries-AreUp_example :
    AreUp (reverse_entries [] (sort_entries [] unsorted))
    × ((p : ConsumerEntry → Bool)
        → count_if p (reverse_entries [] (sort_entries [] unsorted))
          ≡ count_if p (map fix_length unsorted))
sort_entries-AreUp_example = sort_entries-AreUp unsorted

abbrev reader : RfcResult → Reader ℕ
reader result = record {
  packet_consumer = [];
  message_consumer = counter result [] ∷ [];
  forward_message = none;
  memory = 5;
}

-- Two messages without TLVs and addresses, in a packet without flags.
abbrev two_messages : List ℕ
two_messages = 0 ∷ 1 ∷ 3 ∷ 0 ∷ 6 ∷ 0 ∷ 0 ∷ 2 ∷ 3 ∷ 0 ∷ 6 ∷ 0 ∷ 0 ∷ []

rfc5444_reader_handle_packet-Kept_example :
    Ends AnyFault
      (Value (Kept 5))
      (rfc5444_reader_handle_packet system two_messages 13 (reader okay) 0)
rfc5444_reader_handle_packet-Kept_example =
    rfc5444_reader_handle_packet-Kept system two_messages 13 (reader okay) 0 (omega arith)

-- The result, and the number of messages that the consumer has seen.
abbrev seen : Exec (Option (PktEnd ℕ)) → Option (RfcResult × ℕ)
seen (done (some e)) = some (e.result, e.stage.world)
seen _ = none

both_messages :
    seen (rfc5444_reader_handle_packet system two_messages 13 (reader okay) 0) ≡ some (okay, 2)
unfolding rfc5444_reader_handle_packet
both_messages = refl

-- With RFC5444_DROP_MSG_BUT_FORWARD for the first message, the second is not handled.
first_message :
    seen (rfc5444_reader_handle_packet system two_messages 13 (reader drop_msg_but_forward) 0)
    ≡ some (drop_msg_but_forward, 1)
unfolding rfc5444_reader_handle_packet
first_message = refl

-- A message whose TLV block is longer than the message.
abbrev short_message : List ℕ
short_message = 1 ∷ 3 ∷ 0 ∷ 6 ∷ 0 ∷ 9 ∷ []

abbrev first_stage : Stage ℕ
first_stage = record { context = record cleared_context { addr_len = 4 }; world = 0 }

handle_body_malformed_example :
    handle_body system (reader okay) short_message 0 6 4 first_stage
    ≡ done (
        some (record {
          result = end_of_buffer;
          end = some 6;
          parser = reader okay;
          stage = first_stage;
        }))
unfolding parse_parts
handle_body_malformed_example =
    handle_body_malformed system (reader okay) short_message 0 6 4 first_stage end_of_buffer
      (record { tlvs = []; addrs = []; memory = 5; ptr = 6 }) (omega arith) refl refl
