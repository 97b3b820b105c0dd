-- ===== src/Rdb.antt =====
-- kv_RDB.c: the snapshot of the engine in a file.
pub mod Crc
pub mod Stream
pub mod Config
pub mod Format
pub mod Save
pub mod Load
pub mod Records
pub mod Roundtrip
pub mod Files
pub mod Backup
pub mod Init
