-- ===== src/Lib.antt =====
-- The OONF API (Optimized Link State Routing framework): a library for routing daemons, of which
-- this development models the parts that decide what is accepted from the network and what is
-- sent.
--
-- Program and files. `Rfc5444` is about src-api/rfc5444, the packet format of RFC 5444:
-- `Timetlv`, `Metric` and `Seqno` are the conversions of rfc5444.c, `Result` holds the result
-- codes and flag bits, `TlvWriter` is rfc5444_tlv_writer.c. `Reader` is the reader of
-- rfc5444_reader.c: `Cursor` reads bytes; `Tlv`, `TlvBlock` and `AddrBlock` are `_parse_tlv`,
-- `_parse_tlvblock` and `_parse_addrblock`; `Parts` is the parsing in `_handle_message`, and
-- `Message` the rest of it; `Packet` is `rfc5444_reader_handle_packet`. `Consumer` and `Registry`
-- are the consumers that an application adds, `Schedule` is `_schedule_tlvblock`, which walks
-- over the TLVs of a block and the entries of a consumer side by side, `Linking` what it does
-- with one of them, and `Dispatch` holds the calls of the consumers of a message
-- (`schedule_msgtlv_consumer`, `schedule_msgaddr_consumer`, `schedule_end_message_cbs`).
-- `Verdict` is about the results of the parsers, `Fuel` holds loops on fuel. `DuplicateSet` is
-- src-api/subsystems/oonf_duplicate_set.c, which recognises messages that were received before by
-- their sequence numbers. `Common` is about src-api/common: `Autobuf` is the growing buffer of
-- autobuf.c, `Netaddr` the addresses of netaddr.c (`SameBits` and `Subnet` are about prefixes,
-- `Binary` about bytes, `Host` about host numbers), `NetaddrAcl` the access control lists of
-- netaddr_acl.c, which use the addresses, and `SortedTree` the sequence of elements in which the
-- program walks a tree of avl.h. `Timer` is the timer scheduler of
-- src-api/subsystems/oonf_timer.c (`Deadline` is about `_calc_clock`, `Order` and `Running` about
-- the tree, `Walk` about a firing timer, `Fired`, `Round` and `Loop` about the loop over the due
-- timers, `Events` about the rest). `Tests` holds runs and the theorems at concrete inputs.
-- `Base` holds lists over the native numbers, bits, casts to fixed widths, and runs that may end
-- in a fault.
--
-- State and operations. A C structure is a record with the source's field names, a function that
-- changes it returns the new record. A packet is a list of bytes, and a pointer into it is an
-- offset. A read or a write outside of an object, and a division by zero, end a run of the type
-- `Exec` in a fault. Numbers are natural numbers, with the wrap-around of their width written out
-- where the source casts or computes in that width; an `int` is an integer. Success of each
-- allocation is an argument, or a count of the allocations that succeed. Timers are numbers with
-- a store of their records; a consumer is named by its place in the tree, and a TLV by its place
-- in its block. A callback is a function on a state of the application of any type; it gets the
-- context and returns its result, the new state, and which flags it sets. The present time,
-- random numbers and callbacks are arguments. The numbers of the address families belong to the
-- system and are an argument with their documented relations.
--
-- Configuration. As in the checked-in src-api/rfc5444/rfc5444_api_config.h, the constant
-- DISALLOW_CONSUMER_CONTEXT_DROP is false and DEBUG_CLEANUP is true. An `int` has 32 bits and a
-- `size_t` has 64.
--
-- Fuel. The scaling loops of the encoders get a round for each bit of the scaled variable, and
-- are shown to end by their test before. The loop over the TLVs of a block gets a round for each
-- byte of the block; each TLV takes two bytes at least. The loops over the address blocks of a
-- message and over the messages of a packet get a round for each byte and one more; each round
-- takes two bytes at least. The walk of `_schedule_tlvblock` gets a round for each TLV and each
-- entry and one more. The scaling loops and the loop over the TLVs of a block, whose fuel is shown
-- to be enough, would return the state that they have reached when it is used up; the other loops
-- return `none` then. The loop over due timers has its fuel as an argument.
--
-- Not modelled: sockets, the operating system, configuration, logging and the plugins; the
-- message and packet generators; the balancing of trees, and the two padding bytes that the
-- comparator of the tree of packet TLVs reads behind the key, which are taken as zero; reading
-- and printing addresses as texts; and the functions of `Autobuf` that call the formatting
-- functions of the C library.
pub mod Base
pub mod Common
pub mod Rfc5444
pub mod DuplicateSet
mod Tests
pub mod Timer
