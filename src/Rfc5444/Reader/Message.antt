-- ===== src/Rfc5444/Reader/Message.antt =====
-- `_handle_message` (src-api/rfc5444/rfc5444_reader.c): the calls of the consumers for a message that
-- has been parsed, and the forwarding.
pub mod Ending
pub mod Malformed
use oonf_api.Base.Exec.{Exec, done, ◌>>=◌}
use oonf_api.Base.Int.{ltb_ℤ, pos, negsuc}
use oonf_api.Base.{
  ℕ, zero, suc, ◌+◌, ◌-◌, ◌*◌, Bool, true, false, not, ◌&&◌, ◌||◌, ◌==◌, bit_and, ltb,
  if◌then◌else◌, List, [], ◌∷◌, ◌++◌, length, get_elem?, set, take, drop, Option, none, some,
}
use oonf_api.Common.Netaddr.{Netaddr, Families, netaddr_from_binary_prefix}
use oonf_api.Rfc5444.Reader.AddrBlock.{cleared_addrblock, parse_addrblock}
use oonf_api.Rfc5444.Reader.Consumer.{ContextType, Context, Consumer}
use oonf_api.Rfc5444.Reader.Cursor.{Cursor, has_flag, get_u8, get_u16}
use oonf_api.Rfc5444.Reader.Fuel.{◌>>?◌, with_value}
use oonf_api.Rfc5444.Reader.Dispatch.{
  AddrEntry, Stage, Scene, with_type, wants, schedule_msgtlv_consumer, schedule_msgaddr_consumer,
  schedule_end_message_cbs,
}
use oonf_api.Rfc5444.Reader.Parts.{Header, parse_msg_header, Parts, parse_parts, free_parts}
use oonf_api.Rfc5444.Reader.Tlv.{TlvEntry}
use oonf_api.Rfc5444.Reader.TlvBlock.{Block, parse_tlvblock}
use oonf_api.Rfc5444.Result.{
  RfcResult, okay, drop_message, drop_msg_but_forward, end_of_buffer, out_of_memory, is_okay,
  msg_flag_originator, msg_flag_hoplimit, msg_flag_hopcount, msg_flag_seqno, msg_flag_addrlenmask,
}

-- `struct rfc5444_reader`, with the number of further allocations that succeed.
pub record Reader (W : Type 0) : Type 0 where
  pub packet_consumer : List (Consumer W)
  pub message_consumer : List (Consumer W)
  pub forward_message : Option (Context → List ℕ → W → W)
  pub memory : ℕ

-- What the code leaves behind a message: the result, the pointer, and the consumers.
pub record Handled (W : Type 0) : Type 0 where
  pub result : RfcResult
  pub end : Option ℕ
  pub parser : Reader W
  pub stage : Stage W

-- The calls of the consumers: `first` and `last` are the places of `same_order` in the tree.
pub record MsgRun (W : Type 0) : Type 0 where
  pub consumers : List (Consumer W)
  pub first : Option ℕ
  pub last : ℕ
  pub tlvs : List TlvEntry
  pub addrs : List AddrEntry
  pub stage : Stage W

abbrev pub is_drop_message : RfcResult → Bool
is_drop_message drop_message = true
is_drop_message _ = false

abbrev pub may_forward : RfcResult → Bool
may_forward okay = true
may_forward drop_msg_but_forward = true
may_forward _ = false

module _ {W : Type 0} where
  -- Whether a range of consumers is open, and its last one is in front of this one.
  unfoldable pub is_later : Consumer W → MsgRun W → Bool
  is_later c run = elim run.first [
    | none ↦ false
    | some f ↦ elim (get_elem? run.consumers run.last) [
      | none ↦ false
      | some l ↦ ltb_ℤ l.order c.order
    ]
  ]

  -- The end callbacks for the range.
  unfoldable pub close_range : RfcResult → MsgRun W → RfcResult × MsgRun W
  unfolding schedule_end_message_cbs
  close_range result run = elim run.first [
    | none ↦ (result, run)
    | some f ↦
        let range = take (run.last + 1 - f) (drop f run.consumers) in
        let (r, stage) = schedule_end_message_cbs range result run.stage in
        (r, record run { stage = stage })
  ]

  -- The same in front of a consumer with a larger order; then no range is open.
  unfoldable pub close_earlier : Consumer W → MsgRun W → RfcResult × MsgRun W
  unfolding is_later close_range
  close_earlier c run =
      if not (is_later c run)
      then (okay, run)
      else let (r, run1) = close_range okay run in
        (r, if is_okay r then record run1 { first = none } else run1)

  -- The range with this consumer at its end.
  abbrev pub extend_range : ℕ → MsgRun W → MsgRun W
  extend_range at run = record run {
    first = elim run.first [ none ↦ some at | some f ↦ some f ];
    last = at;
  }

  module _ (af : Families) (buf : List ℕ) where
    unfoldable pub consume : ℕ → Consumer W → MsgRun W → Exec (Option (RfcResult × MsgRun W))
    unfolding schedule_msgaddr_consumer schedule_msgtlv_consumer
    consume at c run = elim c.addrblock_consumer [
      | true ↦ schedule_msgaddr_consumer af c buf run.addrs run.stage >>? (λ r. done (
          some (
            r.0,
            record run {
              consumers = set run.consumers at (record c { entries = r.2.entries });
              addrs = r.1;
              stage = r.2.stage;
            },
          )))
      | false ↦ schedule_msgtlv_consumer c buf run.tlvs run.stage >>? (λ r. done (
          some (
            r.0,
            extend_range at (record run {
              consumers = set run.consumers at (record c { entries = r.1.entries });
              tlvs = r.1.tlvs;
              stage = r.1.stage;
            }),
          )))
    ]

    -- The loop over the consumers from a place on; `true` for the `goto` out of it.
    unfoldable pub consumer_rounds : ℕ → ℕ → MsgRun W → Exec (Option (Bool × RfcResult × MsgRun W))
    unfolding close_earlier consume
    consumer_rounds zero at run = done (some (false, okay, run))
    consumer_rounds (suc n) at run = elim (get_elem? run.consumers at) [
      | none ↦ done (some (false, okay, run))
      | some c ↦ elim (wants c run.stage.context.msg_type) [
        | false ↦ consumer_rounds n (at + 1) run
        | true ↦ elim (is_okay (close_earlier c run).0) [
          | false ↦ done (some (true, (close_earlier c run).0, (close_earlier c run).1))
          | true ↦ consume at c (close_earlier c run).1 >>? (λ r. elim (is_okay r.0) [
            | true ↦ consumer_rounds n (at + 1) r.1
            | false ↦ done (some (false, r.0, r.1))
          ])
        ]
      ]
    ]

  -- Behind the loop.
  unfoldable pub finish_rounds : Bool × RfcResult × MsgRun W → RfcResult × MsgRun W
  unfolding close_range
  finish_rounds r = if r.0 then (r.1, r.2) else close_range r.1 r.2

  -- The forwarding of the bytes of the message.
  abbrev pub forward_to : Option (Context → List ℕ → W → W) → List ℕ → Stage W → Stage W
  forward_to none bytes s = s
  forward_to (some callback) bytes s = record (with_type ContextType.message s) {
    world = callback (with_type ContextType.message s).context bytes s.world;
  }

  unfoldable pub handle_forwarding : Reader W → RfcResult → List ℕ → Stage W → Stage W
  handle_forwarding parser result bytes s =
      if may_forward result
        && (not s.context.do_not_forward && (s.context.has_hoplimit && ltb 1 s.context.hoplimit))
      then forward_to parser.forward_message bytes s
      else s

  -- The label `cleanup_parse_message`, with `end` set.
  unfoldable pub cleanup_message : Reader W → List ℕ → ℕ → ℕ → ℕ → RfcResult × MsgRun W → Handled W
  unfolding handle_forwarding
  cleanup_message parser buf start end memory ended =
      let (result, run) = ended in
      record {
        result = (if is_drop_message result then okay else result);
        end = some end;
        parser = record parser { message_consumer = run.consumers; memory = memory };
        stage = handle_forwarding parser result (take (end - start) (drop start buf)) run.stage;
      }

  -- A message of which nothing has been parsed.
  abbrev pub start_run : Reader W → Parts → Stage W → MsgRun W
  start_run parser m s = record {
    consumers = parser.message_consumer;
    first = none;
    last = 0;
    tlvs = m.tlvs;
    addrs = m.addrs;
    stage = s;
  }

  module _ (af : Families) (parser : Reader W) (buf : List ℕ) where
    -- The message behind its header, up to `end`.
    unfoldable pub handle_body : ℕ → ℕ → ℕ → Stage W → Exec (Option (Handled W))
    unfolding parse_parts consumer_rounds finish_rounds cleanup_message free_parts
    handle_body start end ptr s = parse_parts buf end s.context.addr_len parser.memory ptr >>? (λ p.
        let run = start_run parser p.1 s in
        elim (is_okay p.0) [
          | false ↦ done (some (cleanup_message parser buf start end (free_parts p.1) (p.0, run)))
          | true ↦ consumer_rounds af buf (length parser.message_consumer) 0 run >>? (λ r.
              done (some (cleanup_message parser buf start end (free_parts p.1) (finish_rounds r))))
        ])

    unfoldable pub handle_message : ℕ → ℕ → Stage W → Exec (Option (Handled W))
    unfolding parse_msg_header handle_body cleanup_message
    handle_message eob start stage = do
      h ← parse_msg_header af buf eob stage.context start
      let s : Stage W = record stage { context = h.context }
      let end = start + h.size
      let result = if ltb eob end then end_of_buffer else h.cursor.result
      let unparsed : Parts = record {
        tlvs = [];
        addrs = [];
        memory = parser.memory;
        ptr = h.cursor.ptr;
      }
      if not h.has_end
          then done
              (some (record { result = h.cursor.result; end = none; parser = parser; stage = s }))
          else if not (is_okay result)
          then done (
              some (
                cleanup_message parser buf start end parser.memory
                  (result, start_run parser unparsed s)))
          else handle_body start end h.cursor.ptr s
