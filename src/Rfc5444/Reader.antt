-- ===== src/Rfc5444/Reader.antt =====
-- The packet reader (src-api/rfc5444/rfc5444_reader.c). A buffer is a list of bytes, and a pointer
-- into it is an offset. A read or write outside of an object, and a division by zero, end the run
-- in a fault.
pub mod Cursor
pub mod Tlv
pub mod TlvBlock
pub mod AddrBlock
pub mod Consumer
pub mod Fuel
pub mod Linking
pub mod Schedule
pub mod Dispatch
pub mod Verdict
pub mod Parts
pub mod Message
pub mod Packet
pub mod Registry
