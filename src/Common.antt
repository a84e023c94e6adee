-- ===== src/Common.antt =====
-- code/common: the containers, codecs and hashes that client and portal are built on.
pub mod Endian
pub mod Array
pub mod Uuid
pub mod Hash
pub mod List
pub mod Rbtree
pub mod Timer
