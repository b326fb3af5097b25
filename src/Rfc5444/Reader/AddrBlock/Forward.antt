-- ===== src/Rfc5444/Reader/AddrBlock/Forward.antt =====
-- The parser of an address block moves the pointer forward
-- (src-api/rfc5444/rfc5444_reader.c).
use oonf_api.Base.{
  ℕ, ◌+◌, ◌-◌, ◌*◌, ◌≤◌, ◌≡◌, ltb, ◌==◌, not, if◌then◌else◌, List, length, replicate, bit_and,
  bit_or, arith,
}
use oonf_api.Base.Exec.{
  Exec, done, fault, out_of_bounds, AnyFault, Ends, Ends-bind, Ends-bind_safe, after, either, ◌>>=◌,
}
use oonf_api.Rfc5444.Reader.AddrBlock.Regions.{Goes, Goes-step, not_okay}
use oonf_api.Rfc5444.Reader.AddrBlock.{
  AddrBlock, cleared_addrblock, Step, continue, return, ◌>=>◌, parse_head, parse_tail, parse_mid,
  parse_prefix, finish_addrblock, parse_addrblock, write_addr,
}
use oonf_api.Rfc5444.Reader.Cursor.Bounds.{Took, get_u8-Ends}
use oonf_api.Rfc5444.Reader.Cursor.{Cursor, has_flag, get_u8, read, read_block}
use oonf_api.Rfc5444.Result.{
  RfcResult, okay, bad_msg_prefixflags, bad_msg_tailflags, addr_flag_head, addr_flag_fulltail,
  addr_flag_zerotail, addr_flag_singleplen, addr_flag_multiplen, max_addrlen,
}

-- Not in front of a place.
abbrev From : ℕ → AddrBlock → Cursor → Type 0
From p b c = p ≤ c.ptr

-- The parser's result, where it is no error, comes with a pointer that is not in front of the start.
abbrev pub Forward : ℕ → RfcResult × AddrBlock × Cursor → Type 0
Forward ptr r = r.0 ≡ okay → ptr ≤ r.2.ptr

module _ (buf : List ℕ) (eob : ℕ) (fits : eob ≤ length buf) where
  -- What follows a byte that is read.
  after_u8 :
      {B : Type 0} (Q : B → Type 0) (c : Cursor) (f : ℕ × Cursor → Exec B)
      → ((r : ℕ × Cursor) → c.ptr ≤ r.1.ptr → Ends AnyFault Q (f r))
      → Ends AnyFault Q (get_u8 buf eob c >>= f)
  after_u8 Q c f k =
      Ends-bind_safe AnyFault (λ r. Took 1 eob c r.1) Q (get_u8 buf eob c) f
        (get_u8-Ends buf eob fits c) (λ r t. k r t.forward)

  module _ (addr_len flags p : ℕ) where
    head-From :
        (b : AddrBlock) (c : Cursor)
        → p ≤ c.ptr
        → Ends AnyFault (Goes (From p)) (parse_head buf eob addr_len flags b c)
    unfolding parse_head
    head-From b c h =
        either (Goes (From p)) (not (has_flag flags addr_flag_head)) _ _ (λ none. h)
          λ some. after_u8 (Goes (From p)) c _ λ r le.
            either (Goes (From p)) (ltb eob (r.1.ptr + r.0)) _ _ (λ long. not_okay)
              λ room.
                after (Goes (From p)) (read_block buf r.1.ptr r.0) _
                  λ bytes. after (Goes (From p)) (write_addr b.addr 0 bytes) _ λ addr. omega arith

    tail-From :
        (b : AddrBlock) (c : Cursor)
        → p ≤ c.ptr
        → Ends AnyFault (Goes (From p)) (parse_tail buf eob addr_len flags b c)
    unfolding parse_tail
    tail-From b c h =
        let masked : ℕ = bit_and flags (bit_or addr_flag_fulltail addr_flag_zerotail) in
        either (Goes (From p)) (masked == addr_flag_zerotail) _ _
          (λ zeros. after_u8 (Goes (From p)) c _ λ r le. omega arith)
          λ given.
            either (Goes (From p)) (masked == addr_flag_fulltail) _ _
              (λ full. after_u8 (Goes (From p)) c _ λ r le.
                either (Goes (From p)) (ltb eob (r.1.ptr + r.0)) _ _ (λ long. not_okay)
                  λ room. after (Goes (From p)) (read_block buf r.1.ptr r.0) _ λ bytes.
                    after (Goes (From p))
                      (if ltb addr_len r.0
                        then fault out_of_bounds
                        else write_addr b.addr (addr_len - r.0) bytes)
                      _ λ addr. omega arith)
              λ other. either (Goes (From p)) (not (masked == 0)) _ _ (λ bad. bad_flags) λ empty. h
      where
        bad_flags : bad_msg_tailflags ≡ okay → ⊥
        bad_flags e = cc

    mid-From :
        (b : AddrBlock) (c : Cursor)
        → p ≤ c.ptr
        → Ends AnyFault (Goes (From p)) (parse_mid buf eob addr_len b c)
    unfolding parse_mid
    mid-From b c h =
        either (Goes (From p)) (ltb eob (c.ptr + b.mid_len * b.num_addr)) _ _ (λ long. not_okay)
          λ room. omega (arith, h)

    prefix-From :
        (b : AddrBlock) (c : Cursor)
        → p ≤ c.ptr
        → Ends AnyFault (Goes (From p)) (parse_prefix buf eob addr_len flags b c)
    unfolding parse_prefix
    prefix-From b c h =
        let masked : ℕ = bit_and flags (bit_or addr_flag_singleplen addr_flag_multiplen) in
        either (Goes (From p)) (masked == 0) _ _ (λ none. h)
          λ given.
            either (Goes (From p)) (masked == addr_flag_singleplen) _ _
              (λ one. after (Goes (From p)) (read buf c.ptr) _ λ n. omega arith)
              λ more.
                either (Goes (From p)) (masked == addr_flag_multiplen) _ _ (λ all. omega arith)
                  λ bad. bad_flags
      where
        bad_flags : bad_msg_prefixflags ≡ okay → ⊥
        bad_flags e = cc

  finish-Forward : (ptr : ℕ) (s : Step) → Goes (From ptr) s → Forward ptr (finish_addrblock eob s)
  unfolding finish_addrblock
  finish-Forward ptr (return r b c) h e = absurd (h e)
  finish-Forward ptr (continue b c) h e = h

  pub parse_addrblock-Forward :
      (addr_len ptr : ℕ)
      → Ends AnyFault (Forward ptr) (parse_addrblock buf eob addr_len cleared_addrblock ptr)
  unfolding parse_addrblock
  parse_addrblock-Forward addr_len ptr =
      after_u8 (Forward ptr) (record { ptr = ptr; result = okay }) _
        λ r le.
          either (Forward ptr) (r.0 == 0) _ _ (λ none e. le)
            λ some. after_u8 (Forward ptr) r.1 _ λ f le1.
              let b : AddrBlock = record cleared_addrblock {
                num_addr = r.0;
                addr = replicate max_addrlen 0;
                mid_len = addr_len;
              } in
              let head = head-From addr_len f.0 ptr b f.1 (omega arith) in
              let tail =
                Goes-step (From ptr) (From ptr) (parse_head buf eob addr_len f.0 b f.1)
                  (parse_tail buf eob addr_len f.0) head (tail-From addr_len f.0 ptr) in
              let mid =
                Goes-step (From ptr) (From ptr)
                  (parse_head buf eob addr_len f.0 b f.1 >=> parse_tail buf eob addr_len f.0)
                  (parse_mid buf eob addr_len) tail (mid-From addr_len f.0 ptr) in
              let prefix =
                Goes-step (From ptr) (From ptr)
                  (parse_head buf eob addr_len f.0 b f.1
                    >=> parse_tail buf eob addr_len f.0
                    >=> parse_mid buf eob addr_len)
                  (parse_prefix buf eob addr_len f.0) mid (prefix-From addr_len f.0 ptr) in
              Ends-bind AnyFault (Goes (From ptr)) (Forward ptr) _
                (λ s. done (finish_addrblock eob s)) prefix (λ s t. finish-Forward ptr s t)
