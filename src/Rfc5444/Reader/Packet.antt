-- ===== src/Rfc5444/Reader/Packet.antt =====
-- `rfc5444_reader_handle_packet` (src-api/rfc5444/rfc5444_reader.c): the header of a packet, its
-- consumers, and its messages.
pub mod Ending
use oonf_api.Base.Exec.{Exec, done, fault, out_of_bounds, ◌>>=◌}
use oonf_api.Base.{
  ℕ, zero, suc, ◌+◌, ◌-◌, ◌/◌, ◌^◌, Bool, true, false, not, ◌&&◌, ◌||◌, ◌==◌, bit_and, ltb,
  if◌then◌else◌, List, [], ◌∷◌, length, get_elem?, set, take, replicate, Option, none, some,
}
use oonf_api.Common.Netaddr.{Netaddr, Families}
use oonf_api.Rfc5444.Reader.Consumer.{ContextType, Context, Consumer, Reply}
use oonf_api.Rfc5444.Reader.Cursor.{Cursor, has_flag, get_u8, get_u16}
use oonf_api.Rfc5444.Reader.Fuel.{◌>>?◌, with_value}
use oonf_api.Rfc5444.Reader.Dispatch.{Stage, Scene, call_start, call_end, call_tlvs}
use oonf_api.Rfc5444.Reader.Message.{Reader, Handled, handle_message}
use oonf_api.Rfc5444.Reader.Tlv.{TlvEntry}
use oonf_api.Rfc5444.Reader.TlvBlock.{Block, parse_tlvblock}
use oonf_api.Rfc5444.Result.{
  RfcResult, okay, drop_packet, unsupported_version, is_okay, pkt_flagmask, pkt_flag_seqno,
  pkt_flag_tlv,
}

-- `memset(&dst, 0, sizeof(dst))`
abbrev pub cleared_addr : Netaddr
cleared_addr = record { addr = replicate 16 0; addr_type = 0; prefix_len = 0 }

abbrev pub cleared_context : Context
cleared_context = record {
  context_type = ContextType.packet;
  pkt_version = 0;
  pkt_flags = 0;
  has_pktseqno = false;
  pkt_seqno = 0;
  msg_type = 0;
  msg_flags = 0;
  addr_len = 0;
  has_hopcount = false;
  hopcount = 0;
  has_hoplimit = false;
  hoplimit = 0;
  has_origaddr = false;
  orig_addr = cleared_addr;
  seqno = 0;
  has_seqno = false;
  do_not_forward = false;
  addr = cleared_addr;
}

abbrev pub is_drop_packet : RfcResult → Bool
is_drop_packet drop_packet = true
is_drop_packet _ = false

unfoldable pub get_pktversion : ℕ → ℕ
get_pktversion v = v / 2 ^ 4

-- The header of the packet: the context, and the cursor with the result.
unfoldable pub parse_pkt_header : List ℕ → ℕ → Exec (Context × Cursor)
unfolding get_u8 get_u16 get_pktversion
parse_pkt_header buf eob = do
  (first, c1) ← get_u8 buf eob (record { ptr = 0; result = okay })
  let ctx = record cleared_context {
    pkt_version = get_pktversion first;
    pkt_flags = bit_and first pkt_flagmask;
    has_pktseqno = has_flag first pkt_flag_seqno;
  }
  if not (ctx.pkt_version == 0)
      then done (
        record cleared_context {
          pkt_version = get_pktversion first;
          pkt_flags = bit_and first pkt_flagmask;
        },
        record c1 { result = unsupported_version },
      )
      else if not ctx.has_pktseqno
      then done (ctx, c1)
      else (do (seqno, c2) ← get_u16 buf eob c1; done (record ctx { pkt_seqno = seqno }, c2))

-- The calls of the packet consumers: `started` is the number of consumers up to `last_started`.
pub record PktRun (W : Type 0) : Type 0 where
  pub consumers : List (Consumer W)
  pub started : ℕ
  pub tlvs : List TlvEntry
  pub stage : Stage W

-- What the function returns, and leaves.
pub record PktEnd (W : Type 0) : Type 0 where
  pub result : RfcResult
  pub parser : Reader W
  pub stage : Stage W

abbrev pub is_some : {A : Type 0} → Option A → Bool
is_some none = false
is_some (some a) = true

module _ {W : Type 0} where
  unfoldable pub consume_packet :
      List ℕ → Bool → ℕ → Consumer W → PktRun W → Exec (Option (RfcResult × PktRun W))
  unfolding call_start call_tlvs
  consume_packet buf has_tlv at c run =
      let (r, s) = call_start c run.stage in
      if not (is_okay r) || not (has_tlv && (is_some c.tlv_callback || is_some c.block_callback))
      then done (some (r, record run { started = at + 1; stage = s }))
      else call_tlvs c buf 0 run.tlvs (r, s) >>? (λ q. done (
          some (
            q.0,
            record {
              consumers = set run.consumers at (record c { entries = q.1.entries });
              started = at + 1;
              tlvs = q.1.tlvs;
              stage = q.1.stage;
            },
          )))

  -- The loop over the packet consumers from a place on.
  unfoldable pub packet_rounds :
      ℕ → ℕ → List ℕ → Bool → PktRun W → Exec (Option (RfcResult × PktRun W))
  unfolding consume_packet
  packet_rounds zero at buf has_tlv run = done (some (okay, run))
  packet_rounds (suc n) at buf has_tlv run = elim (get_elem? run.consumers at) [
    | none ↦ done (some (okay, run))
    | some c ↦ consume_packet buf has_tlv at c run >>? (λ r. elim (is_okay r.0) [
      | true ↦ packet_rounds n (at + 1) buf has_tlv r.1
      | false ↦ done (some r)
    ])
  ]

  -- The end callbacks from the last consumer that has been started to the first; what they return
  -- is not looked at.
  unfoldable pub end_packet : List (Consumer W) → RfcResult → Stage W → Stage W
  unfolding call_end
  end_packet [] result s = s
  end_packet (c ∷ consumers) result s = (call_end c result (end_packet consumers result s)).1

  -- The next round of the loop, from where the message has left the pointer; a message without `end`
  -- has left NULL there.
  abbrev pub next_message :
      (ℕ → Exec (Option (PktEnd W))) → Handled W → Option ℕ → Exec (Option (PktEnd W))
  next_message again h none =
      if is_okay h.result
      then fault out_of_bounds
      else done (some (record { result = h.result; parser = h.parser; stage = h.stage }))
  next_message again h (some p) = again p

  module _ (af : Families) (buf : List ℕ) (eob : ℕ) where
    -- The loop over the messages, on fuel.
    unfoldable pub msg_rounds : ℕ → RfcResult → Reader W → ℕ → Stage W → Exec (Option (PktEnd W))
    unfolding handle_message
    msg_rounds zero result parser ptr s = done none
    msg_rounds (suc fuel) result parser ptr s = elim (is_okay result && ltb ptr eob) [
      | false ↦ done (some (record { result = result; parser = parser; stage = s }))
      | true ↦
          handle_message af parser buf eob ptr s
          >>? (λ h. next_message (λ p. msg_rounds fuel h.result h.parser p h.stage) h h.end)
    ]

    -- The messages, unless a packet consumer has stopped the packet.
    unfoldable pub handle_messages : Reader W → ℕ → RfcResult × PktRun W → Exec (Option (PktEnd W))
    unfolding msg_rounds
    handle_messages parser ptr r =
        msg_rounds (suc eob) r.0 (record parser { packet_consumer = r.1.consumers }) ptr r.1.stage

    -- The label `cleanup_parse_packet`; as many TLVs are freed as have been parsed.
    unfoldable pub cleanup_packet : ℕ → PktRun W → PktEnd W → PktEnd W
    unfolding end_packet
    cleanup_packet tlvs run e = record {
      result = (if is_drop_packet e.result then okay else e.result);
      parser = record (e.parser) { memory = e.parser.memory + tlvs };
      stage = end_packet (take run.started run.consumers) e.result e.stage;
    }

    unfoldable pub handle_packet_body :
        Reader W → Bool → List TlvEntry → ℕ → Stage W → Exec (Option (PktEnd W))
    unfolding packet_rounds handle_messages cleanup_packet
    handle_packet_body parser has_tlv tlvs ptr s =
        packet_rounds (length parser.packet_consumer) 0 buf has_tlv
          (record { consumers = parser.packet_consumer; started = 0; tlvs = tlvs; stage = s })
        >>? (λ r.
            handle_messages parser ptr r
            >>? (λ e. done (some (cleanup_packet (length tlvs) r.1 e))))

    -- A return in front of the first allocation that lasts.
    abbrev pub return_early : Reader W → RfcResult → Stage W → PktEnd W
    return_early parser result s = record { result = result; parser = parser; stage = s }

    unfoldable pub rfc5444_reader_handle_packet : Reader W → W → Exec (Option (PktEnd W))
    unfolding parse_pkt_header handle_packet_body parse_tlvblock
    rfc5444_reader_handle_packet parser world = do
      (context, c) ← parse_pkt_header buf eob
      let s : Stage W = record { context = context; world = world }
      if not (is_okay c.result)
          then done (some (return_early parser c.result s))
          else if not (has_flag context.pkt_flags pkt_flag_tlv)
          then handle_packet_body parser false [] c.ptr s
          else (do
            (t, c1) ← parse_tlvblock buf eob 0 (record { tlvs = []; memory = parser.memory }) c.ptr
            if not (is_okay c1.result)
                then done (some (return_early (record parser { memory = t.memory }) c1.result s))
                else handle_packet_body (record parser { memory = t.memory }) true t.tlvs c1.ptr s)
