-- ===== src/Rfc5444/Result.antt =====
-- The results of reader and writer calls and of callbacks (src-api/rfc5444/rfc5444_context.h,
-- with DISALLOW_CONSUMER_CONTEXT_DROP false), and the flag bits of the packet format.
use oonf_api.Base.{ℕ, Bool, true, false}
use oonf_api.Base.Int.{ℤ, pos, negsuc}

pub data RfcResult : Type 0 where
  drop_packet drop_message drop_msg_but_forward drop_address drop_tlv okay : RfcResult
  unsupported_version end_of_buffer bad_tlv_idxflags bad_tlv_valueflags : RfcResult
  bad_tlv_length out_of_memory empty_addrblock bad_msg_tailflags bad_msg_prefixflags : RfcResult
  duplicate_tlv out_of_addrtlv_mem mtu_too_small no_msgcreator : RfcResult
  fw_message_too_long fw_bad_size : RfcResult

-- The number of a result in the source.
abbrev pub result_value : RfcResult → ℤ
result_value drop_packet = pos 5
result_value drop_message = pos 4
result_value drop_msg_but_forward = pos 3
result_value drop_address = pos 2
result_value drop_tlv = pos 1
result_value okay = pos 0
result_value unsupported_version = negsuc 0
result_value end_of_buffer = negsuc 1
result_value bad_tlv_idxflags = negsuc 2
result_value bad_tlv_valueflags = negsuc 3
result_value bad_tlv_length = negsuc 4
result_value out_of_memory = negsuc 5
result_value empty_addrblock = negsuc 6
result_value bad_msg_tailflags = negsuc 7
result_value bad_msg_prefixflags = negsuc 8
result_value duplicate_tlv = negsuc 9
result_value out_of_addrtlv_mem = negsuc 10
result_value mtu_too_small = negsuc 11
result_value no_msgcreator = negsuc 12
result_value fw_message_too_long = negsuc 13
result_value fw_bad_size = negsuc 14

abbrev pub is_okay : RfcResult → Bool
is_okay okay = true
is_okay _ = false

abbrev pub tlv_flag_typeext : ℕ
tlv_flag_typeext = 0x80

abbrev pub tlv_flag_single_idx : ℕ
tlv_flag_single_idx = 0x40

abbrev pub tlv_flag_multi_idx : ℕ
tlv_flag_multi_idx = 0x20

abbrev pub tlv_flag_value : ℕ
tlv_flag_value = 0x10

abbrev pub tlv_flag_extvalue : ℕ
tlv_flag_extvalue = 0x08

abbrev pub tlv_flag_multivalue : ℕ
tlv_flag_multivalue = 0x04

abbrev pub addr_flag_head : ℕ
addr_flag_head = 0x80

abbrev pub addr_flag_fulltail : ℕ
addr_flag_fulltail = 0x40

abbrev pub addr_flag_zerotail : ℕ
addr_flag_zerotail = 0x20

abbrev pub addr_flag_singleplen : ℕ
addr_flag_singleplen = 0x10

abbrev pub addr_flag_multiplen : ℕ
addr_flag_multiplen = 0x08

abbrev pub msg_flag_originator : ℕ
msg_flag_originator = 0x80

abbrev pub msg_flag_hoplimit : ℕ
msg_flag_hoplimit = 0x40

abbrev pub msg_flag_hopcount : ℕ
msg_flag_hopcount = 0x20

abbrev pub msg_flag_seqno : ℕ
msg_flag_seqno = 0x10

abbrev pub msg_flag_addrlenmask : ℕ
msg_flag_addrlenmask = 0x0f

abbrev pub pkt_flagmask : ℕ
pkt_flagmask = 0x0f

abbrev pub pkt_flag_seqno : ℕ
pkt_flag_seqno = 0x08

abbrev pub pkt_flag_tlv : ℕ
pkt_flag_tlv = 0x04

-- The bytes of a `struct` member `addr`.
abbrev pub max_addrlen : ℕ
max_addrlen = 16
