-- ===== src/Rfc5444/Reader/AddrBlock/Regions.antt =====
-- The parts of the stream that a parsed address block points at
-- (src-api/rfc5444/rfc5444_reader.c).
use oonf_api.Base.{
  ℕ, ◌+◌, ◌-◌, ◌*◌, sym, ◌∙◌, ◌≤◌, ◌≡◌, ◌≢◌, refl, Bool-cases, inl, inr, ltb, ◌==◌, not,
  if◌then◌else◌, List, none, some, replicate, bit_and, bit_or, arith,
}
use oonf_api.Base.Exec.{
  Exec, done, fault, out_of_bounds, AnyFault, Ends, Ends-bind, Ends-eq-done, after, either,
}
use oonf_api.Rfc5444.Reader.AddrBlock.{
  AddrBlock, cleared_addrblock, Step, continue, return, ◌>=>◌, parse_head, parse_tail, parse_mid,
  parse_prefix, finish_addrblock, parse_addrblock, write_addr,
}
use oonf_api.Rfc5444.Reader.Cursor.{Cursor, has_flag, get_u8, read, read_block}
use oonf_api.Rfc5444.Result.{
  empty_addrblock, max_addrlen, RfcResult, okay, end_of_buffer, bad_msg_prefixflags,
  bad_msg_tailflags, addr_flag_head, addr_flag_fulltail, addr_flag_zerotail, addr_flag_singleplen,
  addr_flag_multiplen,
}

-- What every step keeps before the middle parts are known: no prefixes, and the number of addresses.
abbrev Before : ℕ → AddrBlock → Cursor → Type 0
Before num b c = (b.prefixes ≡ none) × (b.num_addr ≡ num)

-- Where the middle parts lie.
abbrev MidIn : ℕ → ℕ → AddrBlock → Cursor → Type 0
MidIn eob num b c = Before num b c × (b.mid_src + b.mid_len * b.num_addr ≤ eob)

-- Where the prefix lengths lie.
abbrev PrefixIn : ℕ → ℕ → AddrBlock → Cursor → Type 0
PrefixIn eob num b c =
    (b.num_addr ≡ num)
    × (b.mid_src + b.mid_len * b.num_addr ≤ eob)
    × ((q : ℕ) → b.prefixes ≡ some q → q + b.num_addr ≤ c.ptr)

-- A step that goes on satisfies `P`, and one that returns has an error.
abbrev pub Goes : (AddrBlock → Cursor → Type 0) → Step → Type 0
Goes P (continue b c) = P b c
Goes P (return r b c) = r ≢ okay

-- One step behind another.
pub Goes-step :
    (P Q : AddrBlock → Cursor → Type 0) (m : Exec Step) (f : AddrBlock → Cursor → Exec Step)
    → Ends AnyFault (Goes P) m
    → ((b : AddrBlock) (c : Cursor) → P b c → Ends AnyFault (Goes Q) (f b c))
    → Ends AnyFault (Goes Q) (m >=> f)
Goes-step P Q (done (continue b c)) f h k = k b c h
Goes-step P Q (done (return r b c)) f h k = h
Goes-step P Q (fault e) f h k = tt

some≢none : {q : ℕ} → some q ≡ none → ⊥
some≢none e = cc

pub not_okay : end_of_buffer ≢ okay
not_okay e = cc

module _ (buf : List ℕ) (eob addr_len flags num : ℕ) where
  head-Goes :
      (b : AddrBlock) (c : Cursor)
      → Before num b c
      → Ends AnyFault (Goes (Before num)) (parse_head buf eob addr_len flags b c)
  unfolding parse_head
  head-Goes b c h =
      let P : Step → Type 0 = Goes (Before num) in
      either P (not (has_flag flags addr_flag_head)) _ _ (λ none. h)
        λ some. after P (get_u8 buf eob c) _ λ r.
          either P (ltb eob (r.1.ptr + r.0)) _ _ (λ long. not_okay)
            λ fits.
              after P (read_block buf r.1.ptr r.0) _
                λ bytes. after P (write_addr b.addr 0 bytes) _ λ addr. h

  tail-Goes :
      (b : AddrBlock) (c : Cursor)
      → Before num b c
      → Ends AnyFault (Goes (Before num)) (parse_tail buf eob addr_len flags b c)
  unfolding parse_tail
  tail-Goes b c h =
      let P : Step → Type 0 = Goes (Before num) in
      let masked : ℕ = bit_and flags (bit_or addr_flag_fulltail addr_flag_zerotail) in
      either P (masked == addr_flag_zerotail) _ _ (λ zeros. after P (get_u8 buf eob c) _ λ r. h)
        λ given.
          either P (masked == addr_flag_fulltail) _ _
            (λ full. after P (get_u8 buf eob c) _ λ r.
              either P (ltb eob (r.1.ptr + r.0)) _ _ (λ long. not_okay)
                λ fits. after P (read_block buf r.1.ptr r.0) _ λ bytes.
                  after P
                    (if ltb addr_len r.0
                      then fault out_of_bounds
                      else write_addr b.addr (addr_len - r.0) bytes)
                    _ λ addr. h)
            λ other. either P (not (masked == 0)) _ _ (λ bad. bad_flags) λ empty. h
    where
      bad_flags : bad_msg_tailflags ≢ okay
      bad_flags e = cc

  mid-Goes :
      (b : AddrBlock) (c : Cursor)
      → Before num b c
      → Ends AnyFault (Goes (MidIn eob num)) (parse_mid buf eob addr_len b c)
  unfolding parse_mid
  mid-Goes b c h = ground arith

  prefix-Goes :
      (b : AddrBlock) (c : Cursor)
      → MidIn eob num b c
      → Ends AnyFault (Goes (PrefixIn eob num)) (parse_prefix buf eob addr_len flags b c)
  unfolding parse_prefix
  prefix-Goes b c h =
      let P : Step → Type 0 = Goes (PrefixIn eob num) in
      let masked : ℕ = bit_and flags (bit_or addr_flag_singleplen addr_flag_multiplen) in
      either P (masked == 0) _ _ (λ none. fixed)
        λ given.
          either P (masked == addr_flag_singleplen) _ _
            (λ one. after P (read buf c.ptr) _ λ n. fixed)
            λ more. either P (masked == addr_flag_multiplen) _ _ (λ all. listed) λ bad. bad_flags
    where
      fixed :
          {p : ℕ}
          → (b.num_addr ≡ num)
            × (b.mid_src + b.mid_len * b.num_addr ≤ eob)
            × ((q : ℕ) → b.prefixes ≡ some q → q + b.num_addr ≤ p)
      fixed = (h.0.1, h.1, λ q e. absurd (some≢none (sym e ∙ h.0.0)))

      listed :
          (b.num_addr ≡ num)
          × (b.mid_src + b.mid_len * b.num_addr ≤ eob)
          × ((q : ℕ) → some c.ptr ≡ some q → q + b.num_addr ≤ c.ptr + b.num_addr)
      listed = (h.0.1, h.1, λ q e. ground arith)

      bad_flags : bad_msg_prefixflags ≢ okay
      bad_flags e = cc

-- What a parsed address block tells: it has addresses, all of their middle parts lie inside the
-- stream, and so do the prefix lengths, if there is one for each address.
pub record InStream (eob : ℕ) (b : AddrBlock) (c : Cursor) : Type 0 where
  pub some_addr : b.num_addr ≢ 0
  pub middle : b.mid_src + b.mid_len * b.num_addr ≤ eob
  pub prefixes_in : (q : ℕ) → b.prefixes ≡ some q → q + b.num_addr ≤ eob
  pub at_end : c.ptr ≤ eob

abbrev Parsed : ℕ → RfcResult × AddrBlock × Cursor → Type 0
Parsed eob r = r.0 ≡ okay → InStream eob r.1 r.2

finish-Parsed :
    (eob num : ℕ) (s : Step)
    → num ≢ 0
    → Goes (PrefixIn eob num) s
    → Parsed eob (finish_addrblock eob s)
unfolding finish_addrblock
finish-Parsed eob num (return r b c) ne h e = absurd (h e)
finish-Parsed eob num (continue b c) ne h e = elim (Bool-cases (ltb eob c.ptr)) [
  | inl over ↦ absurd (not_okay (rw over at e))
  | inr within ↦
      let in_stream : c.ptr ≤ eob = ground arith in
      record {
        some_addr = λ z. ne (sym h.0 ∙ z);
        middle = h.1;
        prefixes_in = λ q e2. omega (arith, h.2 q e2, in_stream);
        at_end = in_stream;
      }
]

parse_addrblock-Parsed :
    (buf : List ℕ) (eob addr_len ptr : ℕ)
    → Ends AnyFault (Parsed eob) (parse_addrblock buf eob addr_len cleared_addrblock ptr)
unfolding parse_addrblock
parse_addrblock-Parsed buf eob addr_len ptr =
    after (Parsed eob) (get_u8 buf eob (record { ptr = ptr; result = okay })) _ λ r.
      either (Parsed eob) (r.0 == 0) _ _ (λ none e. absurd (no_addr e))
        λ some. after (Parsed eob) (get_u8 buf eob r.1) _ λ f.
          let b : AddrBlock = record cleared_addrblock {
            num_addr = r.0;
            addr = replicate max_addrlen 0;
            mid_len = addr_len;
          } in
          let head = head-Goes buf eob addr_len f.0 r.0 b f.1 (refl, refl) in
          let tail =
            Goes-step (Before r.0) (Before r.0) (parse_head buf eob addr_len f.0 b f.1)
              (parse_tail buf eob addr_len f.0) head (tail-Goes buf eob addr_len f.0 r.0) in
          let mid =
            Goes-step (Before r.0) (MidIn eob r.0)
              (parse_head buf eob addr_len f.0 b f.1 >=> parse_tail buf eob addr_len f.0)
              (parse_mid buf eob addr_len) tail (mid-Goes buf eob addr_len f.0 r.0) in
          let prefix =
            Goes-step (MidIn eob r.0) (PrefixIn eob r.0)
              (parse_head buf eob addr_len f.0 b f.1
                >=> parse_tail buf eob addr_len f.0
                >=> parse_mid buf eob addr_len)
              (parse_prefix buf eob addr_len f.0) mid (prefix-Goes buf eob addr_len f.0 r.0) in
          Ends-bind AnyFault (Goes (PrefixIn eob r.0)) (Parsed eob) _
            (λ s. done (finish_addrblock eob s)) prefix
            (λ s t. finish-Parsed eob r.0 s (ground arith) t)
  where
    no_addr : empty_addrblock ≢ okay
    no_addr e = cc

-- An address block that is accepted, parsed into a cleared entry, has at least one address; the
-- middle parts of its addresses lie inside the stream, and so do their prefix lengths, if each has
-- its own; and the pointer is not behind the end of the stream.
pub parse_addrblock-InStream :
    (buf : List ℕ) (eob addr_len ptr : ℕ) (b : AddrBlock) (c : Cursor)
    → parse_addrblock buf eob addr_len cleared_addrblock ptr ≡ done (okay, b, c)
    → InStream eob b c
parse_addrblock-InStream buf eob addr_len ptr b c e =
    Ends-eq-done AnyFault (Parsed eob) (parse_addrblock buf eob addr_len cleared_addrblock ptr)
      (parse_addrblock-Parsed buf eob addr_len ptr) e refl
