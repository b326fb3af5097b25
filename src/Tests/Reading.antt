-- ===== src/Tests/Reading.antt =====
-- The theorems on the packet reader (src-api/rfc5444/rfc5444_reader.c) at inputs.
use oonf_api.Base.Exec.{Ends, InBounds, done, fault, out_of_bounds, div_by_zero}
use oonf_api.Base.{ℕ, ◌≡◌, refl, List, [], ◌∷◌, ◌++◌, length, replicate, ◌+◌, arith}
use oonf_api.Rfc5444.Reader.Tlv.{cleared_entry, parse_tlv}
use oonf_api.Rfc5444.Reader.TlvBlock.Collect.{IsBlock}
use oonf_api.Rfc5444.Reader.TlvBlock.Safe.{BlockParsed, parse_tlvblock-Ends}
use oonf_api.Rfc5444.Reader.TlvBlock.{Block, parse_tlvblock}
use oonf_api.Rfc5444.Result.{okay}
use oonf_api.Rfc5444.Reader.AddrBlock.{AddrBlock, cleared_addrblock, parse_addrblock}
use oonf_api.Rfc5444.Reader.AddrBlock.Overflow.{
  parse_addrblock_long_head, parse_addrblock_no_prefix,
}
use oonf_api.Rfc5444.Reader.AddrBlock.Regions.{InStream, parse_addrblock-InStream}
use oonf_api.Rfc5444.Reader.Tlv.EmptyRange.{no_extension, one_byte, parse_tlv_empty_range}
use oonf_api.Rfc5444.Reader.Cursor.From.{at}
use oonf_api.Rfc5444.TlvWriter.RoundTrip.{read_entry, parse_tlv-write_tlv}
use oonf_api.Rfc5444.TlvWriter.{write_tlv}

-- Four bytes of TLVs: type 7 with the value 42.
abbrev stream : List ℕ
stream = 0 ∷ 4 ∷ 7 ∷ 0x10 ∷ 1 ∷ 42 ∷ []

abbrev empty_block : Block
empty_block = record { tlvs = []; memory = 5 }

empty_block-IsBlock : IsBlock 6 5 empty_block
empty_block-IsBlock = omega arith

parse_tlvblock-Ends_example :
    Ends InBounds (BlockParsed 6 5 0) (parse_tlvblock stream 6 1 empty_block 0)
parse_tlvblock-Ends_example =
    parse_tlvblock-Ends stream 6 1 5 empty_block 0 (omega arith) empty_block-IsBlock

abbrev written : List ℕ
written = write_tlv 7 3 0 255 (42 ∷ 43 ∷ []) ++ (9 ∷ [])

parse_tlv-write_tlv_example :
    parse_tlv written 6 cleared_entry 0 1
    ≡ done (read_entry 1 0 7 3 (42 ∷ 43 ∷ []), at (0 + length (write_tlv 7 3 0 255 (42 ∷ 43 ∷ []))))
unfolding write_tlv
parse_tlv-write_tlv_example =
    parse_tlv-write_tlv written (9 ∷ []) 6 0 1 7 3 (42 ∷ 43 ∷ [])
      (record { front = []; place = refl; split = refl }) (omega arith) (omega arith)

-- One address of four bytes.
abbrev address_stream : List ℕ
address_stream = 1 ∷ 0 ∷ 10 ∷ 0 ∷ 0 ∷ 1 ∷ []

abbrev one_address : AddrBlock
one_address = record cleared_addrblock { num_addr = 1; mid_len = 4; mid_src = 2; prefixlen = 32 }

parse_address_stream :
    parse_addrblock address_stream 6 4 cleared_addrblock 0 ≡ done (okay, one_address, at 6)
unfolding parse_addrblock
parse_address_stream = refl

parse_addrblock-InStream_example : InStream 6 one_address (at 6)
parse_addrblock-InStream_example =
    parse_addrblock-InStream address_stream 6 4 0 one_address (at 6) parse_address_stream

-- A head of 17 bytes.
abbrev long_head : List ℕ
long_head = 1 ∷ 0x80 ∷ 17 ∷ replicate 17 9

parse_addrblock_long_head_example :
    parse_addrblock long_head 20 4 cleared_addrblock 0 ≡ fault out_of_bounds
parse_addrblock_long_head_example =
    parse_addrblock_long_head long_head (replicate 17 9) 20 4 0 1 0x80 17 cleared_addrblock
      (record { front = []; place = refl; split = refl }) (omega arith) refl (omega arith)
      (omega arith) (omega arith)

abbrev no_prefix : List ℕ
no_prefix = 1 ∷ 0x10 ∷ replicate 4 9

parse_addrblock_no_prefix_example :
    parse_addrblock no_prefix (length no_prefix) 4 cleared_addrblock 0 ≡ fault out_of_bounds
parse_addrblock_no_prefix_example =
    parse_addrblock_no_prefix no_prefix (replicate 4 9) 4 0 1 0x10 cleared_addrblock
      (record { front = []; place = refl; split = refl }) (omega arith) refl refl refl (omega arith)

abbrev empty_range : List ℕ
empty_range = 7 ∷ 0x34 ∷ 0 ∷ 255 ∷ 1 ∷ 42 ∷ []

parse_tlv_empty_range_example : parse_tlv empty_range 6 cleared_entry 0 3 ≡ fault div_by_zero
parse_tlv_empty_range_example =
    parse_tlv_empty_range empty_range [] (1 ∷ []) (42 ∷ []) 6 0 3 7 0x34 0 255 1 cleared_entry
      (record { front = []; place = refl; split = refl }) (no_extension refl)
      (record { two_indices = refl; multivalue = refl }) (one_byte refl) (omega arith) (omega arith)
      (omega arith) (omega arith) (omega arith)
