-- ===== src/Http.antt =====
-- sdk/core/azure-core/src/http: URLs, headers, requests, streams and the policies of the pipeline.
pub mod Url
pub mod Headers
pub mod Request
pub mod Streams
pub mod Response
pub mod RetryPolicy
pub mod Curl
