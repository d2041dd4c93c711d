-- ===== src/Http/Response.antt =====
-- The class `RawResponse` of sdk/core/azure-core/inc/azure/core/http/http.hpp, without its body.
use azure_sdk_for_cpp.Base.{ℕ, List, Bytes}

pub record RawResponse : Type 0 where
  pub major_version : ℕ
  pub minor_version : ℕ
  pub status_code : ℕ
  pub reason_phrase : Bytes
  pub headers : List (Bytes × Bytes)
