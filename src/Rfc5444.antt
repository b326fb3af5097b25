-- ===== src/Rfc5444.antt =====
-- The RFC 5444 part of the API, src-api/rfc5444: conversions, the TLV writer and the reader.
pub mod Result
pub mod Reader
pub mod Timetlv
pub mod Metric
pub mod Seqno
pub mod TlvWriter
