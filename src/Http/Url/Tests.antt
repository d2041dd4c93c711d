-- ===== src/Http/Url/Tests.antt =====
-- Runs of `Url`, and the theorems at concrete URLs.
use azure_sdk_for_cpp.Base.{some, Bytes, List, ◌≡◌, refl, [], ◌∷◌, arith, codes, ok, err}
use azure_sdk_for_cpp.Dict.{assign}
use azure_sdk_for_cpp.Strings.{to_lower, to_lower_char}
use azure_sdk_for_cpp.Base.{decimal, to_decimal}
use azure_sdk_for_cpp.Http.Url.{
  Url, bad_encoding, port_not_a_number, port_out_of_range, port_invalid_characters, hex_value,
  hex_pair, decode, is_default_non_encoded, contains, encode, query_loop, append_query_parameters,
  find_scheme, parse_port, parse_optional_port, parse_tail, parse_authority, parse, print_queries,
  pop_back, get_relative_url, get_absolute_url,
}
use azure_sdk_for_cpp.Http.Url.Codec.{decode-encode}
use azure_sdk_for_cpp.Http.Url.Queries.{query_loop_ends}
use azure_sdk_for_cpp.Http.Url.Absolute.{IsWellFormed, parse-get_absolute_url}

methods : Unit {0}
unfolding assign to_lower to_lower_char decimal to_decimal hex_value hex_pair decode
    is_default_non_encoded contains encode query_loop append_query_parameters find_scheme parse_port
    parse_optional_port parse_tail parse_authority parse print_queries pop_back get_relative_url
    get_absolute_url
methods = tt

abbrev account : Url
account = record {
  scheme = codes "https";
  host = codes "account.blob.core.windows.net";
  port = 10000;
  encoded_path = codes "container/blob.txt";
  encoded_query_parameters = (codes "comp", codes "block") ∷ (codes "timeout", codes "30") ∷ [];
}

runs :
    (parse (
        codes
          "HTTPS://account.blob.core.windows.net:10000/container/blob.txt?timeout=30&comp=block#x")
      ≡ ok account)
    × (parse (codes "http://host:x/") ≡ err port_not_a_number)
    × (parse (codes "http://host:65536/") ≡ err port_out_of_range)
    × (parse (codes "http://host:80x") ≡ err port_invalid_characters)
    × (decode (codes "a+b%2Fc") ≡ ok (codes "a b/c"))
    × (decode (codes "100%") ≡ err bad_encoding)
    × (encode (codes "/") (codes "a b/c+") ≡ codes "a%20b/c%2B")
unfolding methods
runs = (refl, refl, refl, refl, refl, refl, refl)

account-IsWellFormed : IsWellFormed account
account-IsWellFormed = record {
  scheme_present = refl;
  scheme_lower = (refl, (refl, (refl, (refl, (refl, tt)))));
  scheme_colon = (refl, (refl, (refl, (refl, (refl, tt)))));
  host_ends = ground arith;
  port_lt = omega arith;
  path_ends = ground arith;
  parameters = ground arith;
  parameters_sorted = ground arith;
  parameters_start = refl;
  no_fragment = ground arith;
}

parse-get_absolute_url_example : parse (get_absolute_url account) ≡ ok account
parse-get_absolute_url_example = parse-get_absolute_url account account-IsWellFormed

decode-encode_example : decode (encode (codes "/") (codes "a b/ü")) ≡ ok (codes "a b/ü")
unfolding contains
decode-encode_example = decode-encode (codes "/") (codes "a b/ü") refl refl (omega arith)

query_loop_ends_example :
    (result : List (Bytes × Bytes)) × (query_loop 7 [] (codes "a=b&c=d") ≡ some result)
query_loop_ends_example = query_loop_ends 7 [] (codes "a=b&c=d") (omega arith)
