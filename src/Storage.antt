-- ===== src/Storage.antt =====
-- sdk/storage/azure-storage-common: the parts that the storage clients share.
pub mod ConcurrentTransfer
pub mod Crc64
pub mod Credential
pub mod ReliableStream
pub mod RetryPolicy
pub mod Sas
pub mod SharedKey
