-- ===== src/Http/Curl.antt =====
-- sdk/core/azure-core/src/http/curl/curl.cpp, in the parts that do not call libcurl.
pub mod Body
pub mod Parser
pub mod Pool
pub mod Session
mod Tests
