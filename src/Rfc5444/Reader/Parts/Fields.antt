-- ===== src/Rfc5444/Reader/Parts/Fields.antt =====
-- The header of a message (src-api/rfc5444/rfc5444_reader.c): the pointer moves forward, and the result
-- is an error or okay.
use oonf_api.Base.Exec.{
  Exec, AnyFault, Ends, Ends-bind, Ends-and, Ends-map, Ends-weaken, NoFault, after, either, ◌>>=◌,
}
use oonf_api.Base.{
  ℕ, ◌+◌, ◌-◌, ◌≤◌, ◌≡◌, refl, sym, Bool, false, not, ◌&&◌, bit_and, ltb, List, length, drop, arith,
}
use mathlib.Core.Bool.{false≢true}
use oonf_api.Common.Netaddr.{Families, netaddr_from_binary_prefix}
use oonf_api.Rfc5444.Reader.Consumer.{Context}
use oonf_api.Rfc5444.Reader.Cursor.Bounds.{Took, get_u8-Ends, get_u16-Ends}
use oonf_api.Rfc5444.Reader.Cursor.{Cursor, has_flag, get_u8, get_u16}
use oonf_api.Rfc5444.Reader.Parts.{
  Header, get_optional_u8, get_optional_u16, get_originator, parse_tail_fields, parse_msg_header,
}
use oonf_api.Rfc5444.Reader.Verdict.{is_drop, Sound, SoundPair, get_u8-Sound, get_u16-Sound}
use oonf_api.Rfc5444.Result.{
  okay, is_okay, msg_flag_originator, msg_flag_hoplimit, msg_flag_hopcount, msg_flag_seqno,
  msg_flag_addrlenmask,
}

-- Not in front of the start, and without a drop.
abbrev Good : ℕ → Cursor → Type 0
Good start c = (start ≤ c.ptr) × Sound c

abbrev GoodPair : {A : Type 0} → ℕ → A × Cursor → Type 0
GoodPair start r = Good start r.1

-- The header as it is used: it has an error if `end` is not set.
pub record HeaderEnd (start : ℕ) (h : Header) : Type 0 where
  pub forward : start ≤ h.cursor.ptr
  pub verdict : is_drop h.cursor.result ≡ false
  pub no_end : h.has_end ≡ false → is_okay h.cursor.result ≡ false

module _ (af : Families) (buf : List ℕ) (eob start : ℕ) (fits : eob ≤ length buf) where
  get_u8-Good : (c : Cursor) → Good start c → Ends AnyFault (GoodPair start) (get_u8 buf eob c)
  get_u8-Good c h =
      Ends-map AnyFault (λ r. Took 1 eob c r.1 × SoundPair r) (GoodPair start) (get_u8 buf eob c)
        (λ r k. (omega (arith, h.0, k.0.forward), k.1))
        (Ends-and AnyFault (λ r. Took 1 eob c r.1) SoundPair (get_u8 buf eob c)
          (Ends-weaken NoFault (λ r. Took 1 eob c r.1) (get_u8 buf eob c)
            (get_u8-Ends buf eob fits c))
          (get_u8-Sound buf eob c h.1))

  get_u16-Good : (c : Cursor) → Good start c → Ends AnyFault (GoodPair start) (get_u16 buf eob c)
  get_u16-Good c h =
      Ends-map AnyFault (λ r. Took 2 eob c r.1 × SoundPair r) (GoodPair start) (get_u16 buf eob c)
        (λ r k. (omega (arith, h.0, k.0.forward), k.1))
        (Ends-and AnyFault (λ r. Took 2 eob c r.1) SoundPair (get_u16 buf eob c)
          (Ends-weaken NoFault (λ r. Took 2 eob c r.1) (get_u16 buf eob c)
            (get_u16-Ends buf eob fits c))
          (get_u16-Sound buf eob c h.1))

  -- What follows a cursor of the header.
  next_field :
      {A B : Type 0} (Q : B → Type 0) (m : Exec (A × Cursor)) (f : A × Cursor → Exec B)
      → Ends AnyFault (GoodPair start) m
      → ((r : A × Cursor) → Good start r.1 → Ends AnyFault Q (f r))
      → Ends AnyFault Q (m >>= f)
  next_field Q m f h k = Ends-bind AnyFault (GoodPair start) Q m f h k

  get_optional_u8-Good :
      (there : Bool) (old : ℕ) (c : Cursor)
      → Good start c
      → Ends AnyFault (GoodPair start) (get_optional_u8 af buf eob there old c)
  unfolding get_optional_u8
  get_optional_u8-Good there old c h =
      either (GoodPair start) there _ _ (λ yes. get_u8-Good c h) (λ no. h)

  get_optional_u16-Good :
      (there : Bool) (old : ℕ) (c : Cursor)
      → Good start c
      → Ends AnyFault (GoodPair start) (get_optional_u16 af buf eob there old c)
  unfolding get_optional_u16
  get_optional_u16-Good there old c h =
      either (GoodPair start) there _ _ (λ yes. get_u16-Good c h) (λ no. h)

  get_originator-Good :
      (there : Bool) (context : Context) (c : Cursor)
      → Good start c
      → Ends AnyFault (GoodPair start) (get_originator af buf eob there context c)
  unfolding get_originator
  get_originator-Good there context c h =
      either (GoodPair start) (not there) _ _ (λ no. h)
        λ yes.
          after (GoodPair start)
            (netaddr_from_binary_prefix af context.orig_addr (drop c.ptr buf) context.addr_len 0
              255)
            _ λ a. (omega (arith, h.0), h.1)

  parse_tail_fields-HeaderEnd :
      (flags size : ℕ) (context : Context) (c : Cursor)
      → Good start c
      → Ends AnyFault (HeaderEnd start) (parse_tail_fields af buf eob flags size context c)
  unfolding parse_tail_fields
  parse_tail_fields-HeaderEnd flags size context c h =
      next_field (HeaderEnd start)
        (get_optional_u8 af buf eob (has_flag flags msg_flag_hoplimit) context.hoplimit c) _
        (get_optional_u8-Good (has_flag flags msg_flag_hoplimit) context.hoplimit c h)
        λ r1 h1.
          next_field (HeaderEnd start)
            (get_optional_u8 af buf eob (has_flag flags msg_flag_hopcount) context.hopcount r1.1) _
            (get_optional_u8-Good (has_flag flags msg_flag_hopcount) context.hopcount r1.1 h1)
            λ r2 h2.
              next_field (HeaderEnd start)
                (get_optional_u16 af buf eob (has_flag flags msg_flag_seqno) context.seqno r2.1) _
                (get_optional_u16-Good (has_flag flags msg_flag_seqno) context.seqno r2.1 h2)
                λ r3 h3. record {
                  forward = h3.0;
                  verdict = h3.1;
                  no_end = λ e. absurd (false≢true (sym e));
                }

  pub parse_msg_header-HeaderEnd :
      (context : Context)
      → Ends AnyFault (HeaderEnd start) (parse_msg_header af buf eob context start)
  unfolding parse_msg_header
  parse_msg_header-HeaderEnd context =
      let c : Cursor = record { ptr = start; result = okay } in
      next_field (HeaderEnd start) (get_u8 buf eob c) _ (get_u8-Good c (omega arith, refl)) λ r1 h1.
        next_field (HeaderEnd start) (get_u8 buf eob r1.1) _ (get_u8-Good r1.1 h1) λ r2 h2.
          next_field (HeaderEnd start) (get_u16 buf eob r2.1) _ (get_u16-Good r2.1 h2) λ r3 h3.
            let origin = has_flag r2.0 msg_flag_originator in
            let addr_len = bit_and r2.0 msg_flag_addrlenmask + 1 in
            let ctx : Context = record context {
              do_not_forward = false;
              msg_type = r1.0;
              addr_len = addr_len;
              msg_flags = bit_and r2.0 (255 - msg_flag_addrlenmask);
              has_origaddr = origin;
            } in
            either (HeaderEnd start) (origin && ltb eob (r3.1.ptr + addr_len)) _ _
              (λ short. record { forward = h3.0; verdict = refl; no_end = λ e. refl })
              λ room.
                next_field (HeaderEnd start) (get_originator af buf eob origin ctx r3.1) _
                  (get_originator-Good origin ctx r3.1 h3)
                  λ r4 h4. parse_tail_fields-HeaderEnd r2.0 r3.0 r4.0 r4.1 h4
