-- ===== src/Storage/Crc64/Tables.antt =====
-- The tables of crypt.cpp.
pub mod Bytes
pub mod Rows01
pub mod Rows23
pub mod Rows45
pub mod Rows67
