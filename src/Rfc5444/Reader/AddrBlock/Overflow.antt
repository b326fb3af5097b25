-- ===== src/Rfc5444/Reader/AddrBlock/Overflow.antt =====
-- Streams on which parsing leaves an object or divides by zero
-- (src-api/rfc5444/rfc5444_reader.c).
use oonf_api.Base.{
  ℕ, ◌+◌, ◌*◌, ◌≤◌, ◌<◌, ◌≡◌, ◌≢◌, refl, ap, true, false, ltb, leb, ◌==◌, List, [], ◌∷◌, length,
  get_elem?, take, drop, bit_and, none, arith, length-take, length-drop, length-append,
}
use oonf_api.Base.Exec.{fault, out_of_bounds}
use oonf_api.Rfc5444.Reader.AddrBlock.{AddrBlock, parse_head, parse_addrblock}
use oonf_api.Rfc5444.Reader.Cursor.{has_flag, read}
use oonf_api.Rfc5444.Reader.Cursor.From.{From, From-next, get_u8-From}

get_elem?-end : (xs : List ℕ) → get_elem? xs (length xs) ≡ none
get_elem?-end [] = refl
get_elem?-end (x ∷ xs) = get_elem?-end xs

read-end : (buf : List ℕ) → read buf (length buf) ≡ fault out_of_bounds
unfolding read
read-end buf = rw (get_elem?-end buf, read) refl

module _ (buf rest : List ℕ) (eob addr_len p num flags n : ℕ) where
  -- The head of an address block is copied into the 16 bytes of an address without a test of its
  -- length: with at least one address, a head flag and a head of more than 16 bytes that are all in
  -- the stream, the parser writes behind the address.
  pub parse_addrblock_long_head :
      (b : AddrBlock)
      → From buf p (num ∷ flags ∷ n ∷ rest)
      → num ≢ 0
      → has_flag flags 0x80 ≡ true
      → 16 < n
      → p + 3 + n ≤ eob
      → eob ≤ length buf
      → parse_addrblock buf eob addr_len b p ≡ fault out_of_bounds
  unfolding parse_addrblock parse_head
  parse_addrblock_long_head b f some_addr head long fits inside =
      let addresses : (num == 0) ≡ false = ground arith in
      let flag : (bit_and flags 0x80 == 0) ≡ false = ground arith in
      let enough : ltb eob (p + 1 + 1 + 1 + n) ≡ false = ground arith in
      let readable : leb (p + 1 + 1 + 1 + n) (length buf) ≡ true = ground arith in
      let bytes : List ℕ = take n (drop (p + 1 + 1 + 1) buf) in
      let size : length bytes ≡ n =
        omega (arith, length-take n (drop (p + 1 + 1 + 1) buf), length-drop (p + 1 + 1 + 1) buf) in
      let outside : leb (0 + length bytes) 16 ≡ false = ground arith in
      rw
        (
          get_u8-From eob f (omega arith),
          addresses,
          get_u8-From eob (From-next f) (omega arith),
          flag,
          get_u8-From eob (From-next (From-next f)) (omega arith),
          enough,
          readable,
          outside,
        )
        refl

module _ (buf mid : List ℕ) (addr_len p num flags : ℕ) where
  -- The single prefix length is read without a test that it lies inside the stream: for all flags
  -- that announce a single prefix length, no head and no tail, and at least one address, behind
  -- middle parts that reach to the end of a buffer the parser reads behind that buffer.
  pub parse_addrblock_no_prefix :
      (b : AddrBlock)
      → From buf p (num ∷ flags ∷ mid)
      → num ≢ 0
      → has_flag flags 0x80 ≡ false
      → bit_and flags 0x60 ≡ 0
      → bit_and flags 0x18 ≡ 0x10
      → length mid ≡ addr_len * num
      → parse_addrblock buf (length buf) addr_len b p ≡ fault out_of_bounds
  unfolding parse_addrblock
  parse_addrblock_no_prefix b f some_addr no_head no_tail single size =
      let addresses : (num == 0) ≡ false = ground arith in
      let total : p + 1 + 1 + addr_len * num ≡ length buf =
        omega (arith, ap length f.split, length-append f.front (num ∷ flags ∷ mid), f.place) in
      let enough : ltb (length buf) (p + 1 + 1 + addr_len * num) ≡ false = ground arith in
      rw
        (
          get_u8-From (length buf) f (omega arith),
          addresses,
          get_u8-From (length buf) (From-next f) (omega arith),
          no_head,
          no_tail,
          enough,
          single,
          total,
          read-end buf,
        )
        refl
