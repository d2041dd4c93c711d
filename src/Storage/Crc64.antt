-- ===== src/Storage/Crc64.antt =====
-- The class `Crc64` of sdk/storage/azure-storage-common/src/crypt.cpp and inc/azure/storage/common/crypt.hpp.
mod Xor
mod Step
mod Tables
mod Update
mod Concatenate
