-- ===== src/Storage/SharedKey/Tests.antt =====
-- The text to sign of a small request, and the theorem on its headers.
use azure_sdk_for_cpp.Base.{◌≡◌, refl, false, List, [], ◌∷◌, Bytes, codes, ok}
use azure_sdk_for_cpp.Strings.{to_lower, to_lower_char}
use azure_sdk_for_cpp.Dict.{find, insert_all}
use azure_sdk_for_cpp.Http.Url.{Url, decode, pop_back, hex_pair, hex_value}
use azure_sdk_for_cpp.Http.Request.{get, http_method_to_string, get_headers}
use azure_sdk_for_cpp.Storage.SharedKey.{
  header_lines, lower_bound, while_prefixed, starts_with, insert_pair, sort_pairs,
  canonicalized_headers, pair_lines, decoded_queries, string_to_sign, ms_prefix,
}
use azure_sdk_for_cpp.Storage.SharedKey.Canonical.{prefixed, canonicalized_headers-prefixed}

abbrev some_headers : List (Bytes × Bytes)
some_headers =
    (codes "date", codes "today")
    ∷ (codes "x-ms-a", codes "1")
    ∷ (codes "x-ms-b", codes "2")
    ∷ (codes "y", codes "3")
    ∷ []

canonicalized_headers-prefixed_example :
    canonicalized_headers some_headers ≡ prefixed ms_prefix some_headers
canonicalized_headers-prefixed_example = canonicalized_headers-prefixed some_headers (
  ((refl, (refl, (refl, tt))), ((refl, (refl, tt)), ((refl, tt), (tt, tt)))),
  (
    (refl, (refl, (refl, (refl, tt)))),
    (
      (refl, (refl, (refl, (refl, (refl, (refl, tt)))))),
      ((refl, (refl, (refl, (refl, (refl, (refl, tt)))))), ((refl, tt), tt)),
    ),
  ),
)

two_headers :
    canonicalized_headers some_headers
    ≡ (codes "x-ms-a", codes "1") ∷ (codes "x-ms-b", codes "2") ∷ []
unfolding canonicalized_headers lower_bound while_prefixed starts_with to_lower to_lower_char
    insert_pair sort_pairs
two_headers = refl

abbrev small_url : Url
small_url = record {
  scheme = codes "https";
  host = codes "a.com";
  port = 0;
  encoded_path = codes "c";
  encoded_query_parameters = (codes "Comp", codes "a%20b") ∷ [];
}

-- A length of 0 is signed as an empty line.
signed_text :
    string_to_sign (codes "me") (record {
      method = get;
      url = small_url;
      headers =
          (codes "content-length", codes "0")
          ∷ (codes "range", codes "r")
          ∷ (codes "x-ms-a", codes "1")
          ∷ [];
      retry_headers = [];
      retry_mode_enabled = false;
      body = record { bytes = []; offset = 0 };
    })
    ≡ ok (codes "GET\n\n\n\n\n\n\n\n\n\n\nr\nx-ms-a:1\n/me/c\ncomp:a b")
unfolding string_to_sign decoded_queries decode hex_pair hex_value pop_back http_method_to_string
    header_lines get_headers insert_all find canonicalized_headers lower_bound while_prefixed
    starts_with to_lower to_lower_char insert_pair sort_pairs pair_lines
signed_text = refl
