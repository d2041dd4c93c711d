-- ===== src/Http/Request.antt =====
-- sdk/core/azure-core/src/http/request.cpp and the class `Request` of inc/azure/core/http/http.hpp. The
-- body is a stream on memory.
pub mod Overrides
mod Tests
use azure_sdk_for_cpp.Base.{
  ℕ, Bool, true, false, List, [], ◌∷◌, ◌++◌, if◌then◌else◌, Bytes, codes, Result, ok, err, ◌>>=◌,
}
use azure_sdk_for_cpp.Strings.{to_lower}
use azure_sdk_for_cpp.Dict.{erase, insert_all}
use azure_sdk_for_cpp.Http.Streams.{MemoryBodyStream}
use azure_sdk_for_cpp.Http.Headers.{HeaderError, insert_header_with_validation}
use azure_sdk_for_cpp.Http.Url.{Url, get_relative_url}

pub data HttpMethod : Type 0 where
  get head post put delete patch : HttpMethod

unfoldable pub http_method_to_string : HttpMethod → Bytes
http_method_to_string get = codes "GET"
http_method_to_string head = codes "HEAD"
http_method_to_string post = codes "POST"
http_method_to_string put = codes "PUT"
http_method_to_string delete = codes "DELETE"
http_method_to_string patch = codes "PATCH"

pub record Request : Type 0 where
  pub method : HttpMethod
  pub url : Url
  pub headers : List (Bytes × Bytes)
  pub retry_headers : List (Bytes × Bytes)
  pub retry_mode_enabled : Bool
  pub body : MemoryBodyStream

-- The constructor.
unfoldable pub new_request : HttpMethod → Url → MemoryBodyStream → Request
new_request method url body = record {
  method = method;
  url = url;
  headers = [];
  retry_headers = [];
  retry_mode_enabled = false;
  body = body;
}

unfoldable pub add_header : Request → Bytes → Bytes → Result HeaderError Request
add_header r name value =
    let lower = to_lower name in
    if r.retry_mode_enabled
    then (do
      headers ← insert_header_with_validation r.retry_headers lower value
      ok (record r { retry_headers = headers }))
    else do
      headers ← insert_header_with_validation r.headers lower value
      ok (record r { headers = headers })

unfoldable pub remove_header : Request → Bytes → Request
remove_header r name = record r {
  headers = erase name r.headers;
  retry_headers = erase name r.retry_headers;
}

unfoldable pub start_try : Request → Request
start_try r = record r { retry_mode_enabled = true; retry_headers = [] }

-- `MergeMaps` of the headers of this try and the others.
unfoldable pub get_headers : Request → List (Bytes × Bytes)
get_headers r = insert_all r.retry_headers r.headers

unfoldable pub print_headers : List (Bytes × Bytes) → Bytes
print_headers [] = codes "\r\n"
print_headers ((k, v) ∷ m) = k ++ (codes ": " ++ (v ++ (codes "\r\n" ++ print_headers m)))

unfoldable pub get_headers_as_string : Request → Bytes
get_headers_as_string r = print_headers (get_headers r)

unfoldable pub get_http_message_pre_body : Request → Bytes
get_http_message_pre_body r =
    http_method_to_string r.method
    ++ (codes " /"
        ++ (get_relative_url r.url ++ (codes " HTTP/1.1\r\n" ++ get_headers_as_string r)))
