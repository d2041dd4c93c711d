-- ===== src/Storage/Credential/Tests.antt =====
-- The theorems on connection strings, at one of an account with a key in base 64.
use azure_sdk_for_cpp.Base.{◌≡◌, refl, [], ◌∷◌, codes, none_passes-Without, ok}
use azure_sdk_for_cpp.Dict.{assign}
use azure_sdk_for_cpp.Http.Url.{ends_host}
use azure_sdk_for_cpp.Storage.Credential.{
  is_semicolon, pairs_loop, connection_string_map, parse_connection_string,
}
use azure_sdk_for_cpp.Storage.Credential.Pairs.{print_pairs}
use azure_sdk_for_cpp.Storage.Credential.Services.{
  account_pairs, account_parts, parse_connection_string-account_pairs,
}

printed :
    print_pairs (account_pairs (codes "n") (codes "k==") (codes "s"))
    ≡ codes "DefaultEndpointsProtocol=https;AccountName=n;AccountKey=k==;EndpointSuffix=s"
unfolding print_pairs
printed = refl

-- A value may have equals signs, and a pair may have no value.
read_pairs :
    connection_string_map (codes "b=x==;a=;") ≡ (codes "a", []) ∷ (codes "b", codes "x==") ∷ []
unfolding connection_string_map pairs_loop assign
read_pairs = refl

parse_connection_string-account_pairs_example :
    parse_connection_string
      (print_pairs (account_pairs (codes "n") (codes "k==") (codes "core.windows.net")))
    ≡ ok (account_parts (codes "n") (codes "k==") (codes "core.windows.net"))
parse_connection_string-account_pairs_example =
    parse_connection_string-account_pairs (codes "n") (codes "k==") (codes "core.windows.net") refl
      refl (none_passes-Without ends_host (codes "n") refl)
      (none_passes-Without ends_host (codes "core.windows.net") refl)
      (none_passes-Without is_semicolon (codes "n") refl)
      (none_passes-Without is_semicolon (codes "k==") refl)
      (none_passes-Without is_semicolon (codes "core.windows.net") refl)
