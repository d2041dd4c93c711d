-- ===== src/Storage/RetryPolicy/Tests.antt =====
-- The theorems on the hosts, at a download that the primary host refuses and the secondary one lacks.
use azure_sdk_for_cpp.Base.{
  ℕ, suc, ◌≡◌, refl, ◌≤◌, false, [], ◌∷◌, ◌==◌, if◌then◌else◌, codes, ok, length,
}
use azure_sdk_for_cpp.Http.Request.{Request, get}
use azure_sdk_for_cpp.Http.Response.{RawResponse}
use azure_sdk_for_cpp.Storage.RetryPolicy.{
  StorageRetryOptions, Surroundings, may_use_secondary, retry_delay_ms, judge, switch_host,
  set_host, finish_attempt, send_loop, send, is_read,
}
use azure_sdk_for_cpp.Storage.RetryPolicy.Hosts.{AreHosts, send-AreHosts}

abbrev options : StorageRetryOptions
options = record {
  max_retries = 3;
  retry_delay = 4000;
  max_retry_delay = 120_000;
  status_codes = 500 ∷ 503 ∷ [];
  secondary_host_for_retry_reads = codes "b.net";
}

abbrev answer : ℕ → RawResponse
answer code = record {
  major_version = 1;
  minor_version = 1;
  status_code = code;
  reason_phrase = [];
  headers = [];
}

abbrev lacking : Surroundings ℕ
lacking = record {
  next = λ r n. ((if n == 1 then ok (answer 404) else ok (answer 503)), (r, suc n));
  sleep = λ d n. n;
  jitter = λ n d. d;
  is_canceled = λ n. false;
}

abbrev download : Request
download = record {
  method = get;
  url = record {
    scheme = codes "https";
    host = codes "a.net";
    port = 0;
    encoded_path = codes "c";
    encoded_query_parameters = [];
  };
  headers = [];
  retry_headers = [];
  retry_mode_enabled = false;
  body = record { bytes = []; offset = 0 };
}

back_to_primary :
    (send lacking options download 0).hosts
    ≡ codes "a.net" ∷ codes "b.net" ∷ codes "a.net" ∷ codes "a.net" ∷ []
unfolding send send_loop finish_attempt judge switch_host set_host may_use_secondary is_read
    retry_delay_ms
back_to_primary = refl

send-AreHosts_example :
    AreHosts
      (codes "a.net")
      (codes "b.net")
      (may_use_secondary options download)
      (send lacking options download 0).hosts
    × (length (send lacking options download 0).hosts ≤ 4)
send-AreHosts_example = send-AreHosts lacking options download 0
