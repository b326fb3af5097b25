-- ===== src/Rfc5444/Reader/Verdict/Addresses.antt =====
-- The result of the address block parser (src-api/rfc5444/rfc5444_reader.c) is an error or okay.
use oonf_api.Base.Exec.{Exec, done, fault, out_of_bounds, AnyFault, Ends, Ends-bind, after, either}
use oonf_api.Base.{
  ℕ, ◌+◌, ◌-◌, ◌*◌, ◌≡◌, refl, false, Bool-cases, inl, inr, not, ltb, ◌==◌, if◌then◌else◌, bit_and,
  bit_or, List, replicate,
}
use oonf_api.Rfc5444.Reader.AddrBlock.{
  AddrBlock, Step, continue, return, ◌>=>◌, cleared_addrblock, parse_head, parse_tail, parse_mid,
  parse_prefix, finish_addrblock, parse_addrblock, write_addr,
}
use oonf_api.Rfc5444.Reader.Cursor.{Cursor, has_flag, read, read_block}
use oonf_api.Rfc5444.Result.{
  RfcResult, okay, max_addrlen, addr_flag_head, addr_flag_fulltail, addr_flag_zerotail,
  addr_flag_singleplen, addr_flag_multiplen,
}
use oonf_api.Rfc5444.Reader.Verdict.{is_drop, Sound, after_u8}

abbrev StepSound : Step → Type 0
StepSound (continue b c) = Sound c
StepSound (return r b c) = is_drop r ≡ false

-- One step behind another.
StepSound-step :
    (m : Exec Step) (f : AddrBlock → Cursor → Exec Step)
    → Ends AnyFault StepSound m
    → ((b : AddrBlock) (c : Cursor) → Sound c → Ends AnyFault StepSound (f b c))
    → Ends AnyFault StepSound (m >=> f)
StepSound-step (done (continue b c)) f h k = k b c h
StepSound-step (done (return r b c)) f h k = h
StepSound-step (fault e) f h k = tt

-- The result that the function returns.
abbrev pub Verdict : RfcResult × AddrBlock × Cursor → Type 0
Verdict r = is_drop r.0 ≡ false

finish-Verdict : (eob : ℕ) (s : Step) → StepSound s → Verdict (finish_addrblock eob s)
unfolding finish_addrblock
finish-Verdict eob (return r b c) h = h
finish-Verdict eob (continue b c) h = elim (Bool-cases (ltb eob c.ptr)) [
  | inl over ↦ rw over refl
  | inr within ↦ rw within h
]

module _ (buf : List ℕ) (eob addr_len flags : ℕ) where
  head-Sound :
      (b : AddrBlock) (c : Cursor)
      → Sound c
      → Ends AnyFault StepSound (parse_head buf eob addr_len flags b c)
  unfolding parse_head
  head-Sound b c h =
      either StepSound (not (has_flag flags addr_flag_head)) _ _ (λ none. h)
        λ some. after_u8 buf eob StepSound c _ h λ r hr.
          either StepSound (ltb eob (r.1.ptr + r.0)) _ _ (λ long. refl)
            λ room.
              after StepSound (read_block buf r.1.ptr r.0) _
                λ bytes. after StepSound (write_addr b.addr 0 bytes) _ λ addr. hr

  tail-Sound :
      (b : AddrBlock) (c : Cursor)
      → Sound c
      → Ends AnyFault StepSound (parse_tail buf eob addr_len flags b c)
  unfolding parse_tail
  tail-Sound b c h =
      let masked : ℕ = bit_and flags (bit_or addr_flag_fulltail addr_flag_zerotail) in
      either StepSound (masked == addr_flag_zerotail) _ _
        (λ zeros. after_u8 buf eob StepSound c _ h λ r hr. hr)
        λ given.
          either StepSound (masked == addr_flag_fulltail) _ _
            (λ full. after_u8 buf eob StepSound c _ h λ r hr.
              either StepSound (ltb eob (r.1.ptr + r.0)) _ _ (λ long. refl)
                λ room. after StepSound (read_block buf r.1.ptr r.0) _ λ bytes.
                  after StepSound
                    (if ltb addr_len r.0
                      then fault out_of_bounds
                      else write_addr b.addr (addr_len - r.0) bytes)
                    _ λ addr. hr)
            λ other. either StepSound (not (masked == 0)) _ _ (λ bad. refl) λ empty. h

  mid-Sound :
      (b : AddrBlock) (c : Cursor)
      → Sound c
      → Ends AnyFault StepSound (parse_mid buf eob addr_len b c)
  unfolding parse_mid
  mid-Sound b c h =
      either StepSound (ltb eob (c.ptr + b.mid_len * b.num_addr)) _ _ (λ long. refl) λ room. h

  prefix-Sound :
      (b : AddrBlock) (c : Cursor)
      → Sound c
      → Ends AnyFault StepSound (parse_prefix buf eob addr_len flags b c)
  unfolding parse_prefix
  prefix-Sound b c h =
      let masked : ℕ = bit_and flags (bit_or addr_flag_singleplen addr_flag_multiplen) in
      either StepSound (masked == 0) _ _ (λ none. h)
        λ given.
          either StepSound (masked == addr_flag_singleplen) _ _
            (λ one. after StepSound (read buf c.ptr) _ λ n. h)
            λ more. either StepSound (masked == addr_flag_multiplen) _ _ (λ all. h) λ bad. refl

-- The parser of an address block returns an error or okay.
pub parse_addrblock-Verdict :
    (buf : List ℕ) (eob addr_len ptr : ℕ)
    → Ends AnyFault Verdict (parse_addrblock buf eob addr_len cleared_addrblock ptr)
unfolding parse_addrblock
parse_addrblock-Verdict buf eob addr_len ptr =
    after_u8 buf eob Verdict (record { ptr = ptr; result = okay }) _ refl
      λ r hr.
        either Verdict (r.0 == 0) _ _ (λ none. refl)
          λ some. after_u8 buf eob Verdict r.1 _ hr λ f hf.
            let b : AddrBlock = record cleared_addrblock {
              num_addr = r.0;
              addr = replicate max_addrlen 0;
              mid_len = addr_len;
            } in
            let head = head-Sound buf eob addr_len f.0 b f.1 hf in
            let tail =
              StepSound-step (parse_head buf eob addr_len f.0 b f.1)
                (parse_tail buf eob addr_len f.0) head (tail-Sound buf eob addr_len f.0) in
            let mid =
              StepSound-step
                (parse_head buf eob addr_len f.0 b f.1 >=> parse_tail buf eob addr_len f.0)
                (parse_mid buf eob addr_len) tail (mid-Sound buf eob addr_len f.0) in
            let prefix =
              StepSound-step
                (parse_head buf eob addr_len f.0 b f.1
                  >=> parse_tail buf eob addr_len f.0
                  >=> parse_mid buf eob addr_len)
                (parse_prefix buf eob addr_len f.0) mid (prefix-Sound buf eob addr_len f.0) in
            Ends-bind AnyFault StepSound Verdict _ (λ s. done (finish_addrblock eob s)) prefix
              (λ s h. finish-Verdict eob s h)
