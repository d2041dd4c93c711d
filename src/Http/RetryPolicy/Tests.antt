-- ===== src/Http/RetryPolicy/Tests.antt =====
-- The theorems on the retries, at a transport that fails twice and leaves its marks on the request.
use azure_sdk_for_cpp.Base.{
  ℕ, suc, ◌*◌, ◌/◌, ◌^◌, min, ◌≤◌, ◌≡◌, refl, false, [], ◌∷◌, none, ltb, if◌then◌else◌, codes, ok,
  err, arith,
}
use azure_sdk_for_cpp.Dict.{find}
use azure_sdk_for_cpp.Http.Request.{Request, get, start_try}
use azure_sdk_for_cpp.Http.Response.{RawResponse}
use azure_sdk_for_cpp.Http.RetryPolicy.{
  RetryOptions, transport_failure, Surroundings, send, get_response_header_based_delay,
  calculate_exponential_delay,
}
use azure_sdk_for_cpp.Http.RetryPolicy.Attempts.{
  EndsBy, send-EndsBy, Keeps, repeat_loop, send-repeat_loop,
}
use azure_sdk_for_cpp.Http.RetryPolicy.Delays.{
  calculate_exponential_delay-bounds, get_response_header_based_delay-none,
}

abbrev pub options : RetryOptions
options = record {
  max_retries = 3;
  retry_delay = 4000;
  max_retry_delay = 120_000;
  status_codes = 408 ∷ 503 ∷ [];
}

abbrev pub fine : RawResponse
fine = record {
  major_version = 1;
  minor_version = 1;
  status_code = 200;
  reason_phrase = codes "OK";
  headers = (codes "retry-after", codes "9") ∷ [];
}

-- The state counts the calls; the marks are a query parameter and a body that has been read.
abbrev pub flaky : Surroundings ℕ
flaky = record {
  next = λ r n. (
    (if ltb n 2 then err transport_failure else ok fine),
    (
      record r {
        url = record r.url { encoded_query_parameters = (codes "sig", codes "x") ∷ [] };
        body = record r.body { offset = 1 };
      },
      suc n,
    ),
  );
  sleep = λ d n. n;
  rand_max = 32767;
  rand = λ n. n;
  is_canceled = λ n. false;
}

abbrev pub upload : Request
upload = record {
  method = get;
  url = record {
    scheme = codes "https";
    host = codes "a.net";
    port = 0;
    encoded_path = codes "c";
    encoded_query_parameters = [];
  };
  headers = [];
  retry_headers = [];
  retry_mode_enabled = false;
  body = record { bytes = codes "ab"; offset = 0 };
}

send-EndsBy_example : EndsBy flaky options 4 (send flaky options upload 0)
send-EndsBy_example = send-EndsBy flaky options upload 0

flaky_keeps : Keeps flaky options
flaky_keeps r w = refl

upload_start : upload.body.offset ≡ 0
upload_start = refl

send-repeat_loop_example :
    send flaky options upload 0 ≡ repeat_loop flaky options 4 1 (start_try upload) 0
send-repeat_loop_example = send-repeat_loop flaky options upload 0 flaky_keeps upload_start

calculate_exponential_delay-bounds_example :
    (min (8 * (4000 * 2 ^ 2) / 10) 120_000 ≤ calculate_exponential_delay 32767 10000 options 2)
    × ((calculate_exponential_delay 32767 10000 options 2 ≤ 13 * (4000 * 2 ^ 2) / 10)
        × (calculate_exponential_delay 32767 10000 options 2 ≤ 120_000))
calculate_exponential_delay-bounds_example =
    calculate_exponential_delay-bounds 32767 10000 options 2 (omega arith) (omega arith)
      (omega arith)

get_response_header_based_delay-none_example : get_response_header_based_delay fine ≡ ok none
unfolding find
get_response_header_based_delay-none_example =
    get_response_header_based_delay-none fine
      (
        (refl, (refl, (refl, (refl, (refl, (refl, (refl, (refl, (refl, (refl, (refl, tt))))))))))),
        tt,
      )
      refl refl
