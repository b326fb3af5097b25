-- ===== src/Common.antt =====
-- The containers and helpers of src-api/common that the other parts use.
pub mod Autobuf
pub mod SortedTree
pub mod Netaddr
pub mod NetaddrAcl
