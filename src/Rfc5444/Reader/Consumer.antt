-- ===== src/Rfc5444/Reader/Consumer.antt =====
-- Consumers of the packet reader (src-api/rfc5444/rfc5444_reader.c and rfc5444_reader.h): which TLVs
-- they ask for, which callbacks they have, and how they are kept in order. A callback is a function
-- on the state `W` of the application; it gets the context by value and tells what it sets.
pub mod Order
use oonf_api.Base.Bits.{bit_and-three}
use oonf_api.Base.Int.{ℤ, pos, negsuc, sub_ℕ, pos_part, neg_part, ltb_ℤ}
use oonf_api.Base.Word.{u32}
use oonf_api.Base.{
  ℕ, ◌+◌, ◌*◌, ◌/◌, ◌^◌, Bool, true, false, not, ◌&&◌, ◌||◌, bit_and, bit_or, ◌==◌, ltb, leb,
  if◌then◌else◌, List, [], ◌∷◌, ◌++◌, get_or, set, Option, none, some,
}
use oonf_api.Common.Netaddr.{Netaddr}
use oonf_api.Common.SortedTree.{avl_insert}
use oonf_api.Rfc5444.Reader.Tlv.{TlvEntry, calc_intorder}
use oonf_api.Rfc5444.Result.{RfcResult}

pub data ContextType : Type 0 where
  packet message address : ContextType

-- `struct rfc5444_reader_tlvblock_context`, without the pointers to the reader and the consumer.
pub record Context : Type 0 where
  pub context_type : ContextType
  pub pkt_version : ℕ
  pub pkt_flags : ℕ
  pub has_pktseqno : Bool
  pub pkt_seqno : ℕ
  pub msg_type : ℕ
  pub msg_flags : ℕ
  pub addr_len : ℕ
  pub has_hopcount : Bool
  pub hopcount : ℕ
  pub has_hoplimit : Bool
  pub hoplimit : ℕ
  pub has_origaddr : Bool
  pub orig_addr : Netaddr
  pub seqno : ℕ
  pub has_seqno : Bool
  pub do_not_forward : Bool
  pub addr : Netaddr

-- `tlv` with the `next_entry` of the TLVs behind it is the list of their places in the block.
pub record ConsumerEntry : Type 0 where
  pub mandatory : Bool
  pub tlv_type : ℕ
  pub type_ext : ℕ
  pub match_type_ext : Bool
  pub min_length : ℕ
  pub max_length : ℕ
  pub match_length : Bool
  pub copy_value : Option (List ℕ)
  pub tlv : List ℕ
  pub drop : Bool

-- What a callback returns: its result, the state that it leaves, whether it calls
-- `rfc5444_reader_prevent_forwarding`, and, if it is for a TLV block, for which entries it sets
-- `drop`.
pub record Reply (W : Type 0) : Type 0 where
  pub result : RfcResult
  pub world : W
  pub prevent : Bool
  pub drops : List Bool

pub record Consumer (W : Type 0) : Type 0 where
  pub order : ℤ
  pub default_msg_consumer : Bool
  pub msg_id : ℕ
  pub addrblock_consumer : Bool
  pub entries : List ConsumerEntry
  pub start_callback : Option (Context → W → Reply W)
  pub end_callback : Option (Context → Bool → W → Reply W)
  pub tlv_callback : Option (TlvEntry → Context → W → Reply W)
  pub block_callback : Option (Context → List ConsumerEntry → W → Reply W)
  pub block_callback_failed_constraints : Option (Context → List ConsumerEntry → W → Reply W)

-- `_calc_tlvconsumer_intorder`
unfoldable pub calc_tlvconsumer_intorder : ConsumerEntry → ℕ
unfolding calc_intorder
calc_tlvconsumer_intorder e = calc_intorder e.tlv_type e.type_ext

-- `_compare_tlvtypes`
unfoldable pub compare_tlvtypes : Option TlvEntry → Option ConsumerEntry → ℤ
unfolding calc_tlvconsumer_intorder
compare_tlvtypes none none = pos 0
compare_tlvtypes (some tlv) none = negsuc 0
compare_tlvtypes none (some entry) = pos 1
compare_tlvtypes (some tlv) (some entry) =
    if entry.match_type_ext
    then sub_ℕ tlv.order (calc_tlvconsumer_intorder entry)
    else sub_ℕ tlv.tlv_type entry.tlv_type

-- `_set_addr_bitarray` and `_test_addrbitarray`, on eight words of 32 bits.
unfoldable pub set_addr_bitarray : List ℕ → ℕ → List ℕ
set_addr_bitarray a idx =
    set a (idx / 2 ^ 5) (bit_or (get_or a (idx / 2 ^ 5) 0) (2 ^ bit_and idx 31))

unfoldable pub test_addrbitarray : List ℕ → ℕ → Bool
test_addrbitarray a idx = not (bit_and (get_or a (idx / 2 ^ 5) 0) (2 ^ bit_and idx 31) == 0)

-- `_consumer_avl_comp`
unfoldable pub consumer_avl_comp : {W : Type 0} → Consumer W → Consumer W → ℤ
consumer_avl_comp c1 c2 =
    if ltb_ℤ c2.order c1.order
    then pos 1
    else if ltb_ℤ c1.order c2.order
    then negsuc 0
    else if c1.addrblock_consumer && not c2.addrblock_consumer
    then pos 1
    else if not c1.addrblock_consumer && c2.addrblock_consumer
    then negsuc 0
    else pos 0

-- The list of the entries from its end: a new entry stands behind the last one that is not larger,
-- or in front of all.
unfoldable pub insert_reverse : List ConsumerEntry → ConsumerEntry → List ConsumerEntry
unfolding calc_tlvconsumer_intorder
insert_reverse [] new = new ∷ []
insert_reverse (e ∷ rest) new =
    if leb (calc_tlvconsumer_intorder e) (calc_tlvconsumer_intorder new)
    then new ∷ e ∷ rest
    else e ∷ insert_reverse rest new

-- The adjustment of the lengths at the end of each round.
unfoldable pub fix_length : ConsumerEntry → ConsumerEntry
fix_length e = if ltb e.max_length e.min_length then record e { max_length = e.min_length } else e

-- The loop over the array, with the list in reverse.
unfoldable pub sort_entries : List ConsumerEntry → List ConsumerEntry → List ConsumerEntry
unfolding insert_reverse fix_length
sort_entries list [] = list
sort_entries list (e ∷ entries) = sort_entries (insert_reverse list (fix_length e)) entries

unfoldable pub reverse_entries : List ConsumerEntry → List ConsumerEntry → List ConsumerEntry
reverse_entries acc [] = acc
reverse_entries acc (e ∷ list) = reverse_entries (e ∷ acc) list

-- `_add_consumer`
unfoldable pub add_consumer :
    {W : Type 0} → Consumer W → List (Consumer W) → List ConsumerEntry → List (Consumer W)
unfolding sort_entries reverse_entries avl_insert consumer_avl_comp
add_consumer consumer tree entries =
    avl_insert consumer_avl_comp (λ c. c) tree
      (record consumer { entries = reverse_entries [] (sort_entries [] entries) })
