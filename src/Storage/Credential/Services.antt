-- ===== src/Storage/Credential/Services.antt =====
-- The services of an account, by a connection string with its name and its key.
use mathlib.Core.List.{append-nil}
use azure_sdk_for_cpp.Base.{
  ◌≡◌, refl, ◌∙◌, sym, ap, false, List, [], ◌∷◌, ◌++◌, none, some, Bytes, codes, Without,
  Without-append, none_passes-Without, is_empty, ok, arith,
}
use azure_sdk_for_cpp.Dict.{find, assign}
use azure_sdk_for_cpp.Http.Url.{
  Url, parse, ends_host, get_absolute_url, get_relative_url, pop_back, print_queries,
}
use azure_sdk_for_cpp.Http.Url.Absolute.{parse-get_absolute_url}
use azure_sdk_for_cpp.Storage.Credential.{
  ConnectionStringParts, is_equals_sign, is_semicolon, get_with_default, endpoint, service_url,
  credential_of, with_signature, parse_connection_string,
}
use azure_sdk_for_cpp.Storage.Credential.Pairs.{
  print_pairs, assign_all, ArePairs, connection_string_map-print_pairs,
}

-- The address of a service.
abbrev pub https_url : Bytes → Url
https_url host = record {
  scheme = codes "https";
  host = host;
  port = 0;
  encoded_path = [];
  encoded_query_parameters = [];
}

parse-https_url :
    (host : Bytes)
    → Without ends_host host
    → parse (codes "https" ++ (codes "://" ++ host)) ≡ ok (https_url host)
unfolding get_absolute_url get_relative_url pop_back print_queries
parse-https_url host w =
    ap (λ x. parse (codes "https" ++ (codes "://" ++ x))) (sym (append-nil host))
    ∙ parse-get_absolute_url (https_url host) (record {
      scheme_present = refl;
      scheme_lower = (refl, (refl, (refl, (refl, (refl, tt)))));
      scheme_colon = (refl, (refl, (refl, (refl, (refl, tt)))));
      host_ends = w;
      port_lt = omega arith;
      path_ends = tt;
      parameters = tt;
      parameters_sorted = tt;
      parameters_start = refl;
      no_fragment = tt;
    })

-- The pairs of a connection string of the portal.
abbrev pub account_pairs : Bytes → Bytes → Bytes → List (Bytes × Bytes)
account_pairs name key suffix =
    (codes "DefaultEndpointsProtocol", codes "https")
    ∷ (codes "AccountName", name)
    ∷ (codes "AccountKey", key)
    ∷ (codes "EndpointSuffix", suffix)
    ∷ []

abbrev pub account_parts : Bytes → Bytes → Bytes → ConnectionStringParts
account_parts name key suffix = record {
  blob_service_url = https_url (name ++ (codes ".blob." ++ suffix));
  file_service_url = https_url (name ++ (codes ".file." ++ suffix));
  queue_service_url = https_url (name ++ (codes ".queue." ++ suffix));
  data_lake_service_url = https_url (name ++ (codes ".dfs." ++ suffix));
  key_credential = some (record { account_name = name; account_key = key });
}

endpoint-account_pairs :
    (name key suffix service field : Bytes)
    → is_empty name ≡ false
    → find field (assign_all [] (account_pairs name key suffix)) ≡ none
    → endpoint (assign_all [] (account_pairs name key suffix)) field service
      ≡ codes "https" ++ (codes "://" ++ (name ++ (service ++ suffix)))
unfolding endpoint get_with_default assign_all assign find
endpoint-account_pairs name key suffix service field ne missing = rw (endpoint, missing, ne) refl

pairs_of :
    (name key suffix : Bytes)
    → Without is_semicolon name
    → Without is_semicolon key
    → Without is_semicolon suffix
    → ArePairs (account_pairs name key suffix)
pairs_of name key suffix n k s = (
  (
    (none_passes-Without is_equals_sign (codes "DefaultEndpointsProtocol") refl, refl),
    none_passes-Without is_semicolon (codes "https") refl,
  ),
  (
    ((none_passes-Without is_equals_sign (codes "AccountName") refl, refl), n),
    (
      ((none_passes-Without is_equals_sign (codes "AccountKey") refl, refl), k),
      (((none_passes-Without is_equals_sign (codes "EndpointSuffix") refl, refl), s), tt),
    ),
  ),
)

service_url-account_pairs :
    (name key suffix service field : Bytes)
    → is_empty name ≡ false
    → find field (assign_all [] (account_pairs name key suffix)) ≡ none
    → Without ends_host name
    → Without ends_host service
    → Without ends_host suffix
    → service_url (assign_all [] (account_pairs name key suffix)) field service
      ≡ ok (https_url (name ++ (service ++ suffix)))
unfolding service_url
service_url-account_pairs name key suffix service field ne missing wn wv ws =
    rw
      (
        service_url,
        endpoint-account_pairs name key suffix service field ne missing,
        parse-https_url (name ++ (service ++ suffix)) (
            Without-append ends_host name (service ++ suffix) wn
              (Without-append ends_host service suffix wv ws)),
      )
      refl

-- A connection string with the name of an account, its key and a suffix, none of them empty and with no
-- byte that ends a host or a pair, though the key may have equals signs, gives the four services of the
-- account and its credential.
pub parse_connection_string-account_pairs :
    (name key suffix : Bytes)
    → is_empty name ≡ false
    → is_empty key ≡ false
    → Without ends_host name
    → Without ends_host suffix
    → Without is_semicolon name
    → Without is_semicolon key
    → Without is_semicolon suffix
    → parse_connection_string (print_pairs (account_pairs name key suffix))
      ≡ ok (account_parts name key suffix)
unfolding parse_connection_string credential_of with_signature get_with_default assign_all assign
    find
parse_connection_string-account_pairs name key suffix ne nk en es sn sk ss =
    rw
      (
        parse_connection_string,
        connection_string_map-print_pairs (account_pairs name key suffix)
            (pairs_of name key suffix sn sk ss),
        service_url-account_pairs name key suffix (codes ".blob.") (codes "BlobEndpoint") ne refl en
            (refl, (refl, (refl, (refl, (refl, (refl, tt)))))) es,
        service_url-account_pairs name key suffix (codes ".dfs.") (codes "DfsEndpoint") ne refl en
            (refl, (refl, (refl, (refl, (refl, tt))))) es,
        service_url-account_pairs name key suffix (codes ".file.") (codes "FileEndpoint") ne refl en
            (refl, (refl, (refl, (refl, (refl, (refl, tt)))))) es,
        service_url-account_pairs name key suffix (codes ".queue.") (codes "QueueEndpoint") ne refl
            en (refl, (refl, (refl, (refl, (refl, (refl, (refl, tt))))))) es,
        ne,
        nk,
      )
      refl
