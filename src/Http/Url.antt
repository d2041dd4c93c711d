-- ===== src/Http/Url.antt =====
-- sdk/core/azure-core/src/http/url.cpp and the class `Url` of inc/azure/core/http/http.hpp. A byte
-- above 127, which as a negative `char` would index before the table of `Decode`, has no hex value.
pub mod Codec
pub mod Queries
pub mod Absolute
mod Tests
use azure_sdk_for_cpp.Base.{
  ℕ, zero, suc, ◌+◌, ◌-◌, ◌*◌, ◌/◌, ◌%◌, Bool, true, false, not, ◌&&◌, ◌||◌, List, [], ◌∷◌, ◌++◌,
  Option, none, some, ltb, leb, ◌==◌, if◌then◌else◌, length, drop, Bytes, codes, until, from,
  is_decimal, decimal, to_decimal, is_empty, Result, ok, err, ◌>>=◌, ◌>>◌, require,
}
use azure_sdk_for_cpp.Strings.{to_lower}
use azure_sdk_for_cpp.Dict.{assign, erase}

pub data UrlError : Type 0 where
  bad_encoding port_not_a_number port_out_of_range port_invalid_characters : UrlError

pub record Url : Type 0 where
  pub scheme : Bytes
  pub host : Bytes
  pub port : ℕ
  pub encoded_path : Bytes
  pub encoded_query_parameters : List (Bytes × Bytes)

abbrev is_between : ℕ → ℕ → ℕ → Bool
is_between lo hi c = leb lo c && leb c hi

-- `hexTable`; `none` is the entry -1.
unfoldable pub hex_value : ℕ → Option ℕ
hex_value c =
    if is_between b'0' b'9' c
    then some (c - b'0')
    else if is_between b'A' b'F' c
    then some (c - b'A' + 10)
    else if is_between b'a' b'f' c
    then some (c - b'a' + 10)
    else none

unfoldable pub hex_pair : ℕ → ℕ → Option ℕ
hex_pair d e = elim (hex_value d) [
  | none ↦ none
  | some high ↦ elim (hex_value e) [ none ↦ none | some low ↦ some (high * 16 + low) ]
]

abbrev cons_ok : ℕ → Result UrlError Bytes → Result UrlError Bytes
cons_ok c (ok s) = ok (c ∷ s)
cons_ok c (err e) = err e

unfoldable pub decode : Bytes → Result UrlError Bytes
decode [] = ok []
decode (c ∷ []) =
    if c == b'+' then ok (b' ' ∷ []) else if c == b'%' then err bad_encoding else ok (c ∷ [])
decode (c ∷ d ∷ []) =
    let rest = decode (d ∷ []) in
    if c == b'+' then cons_ok b' ' rest else if c == b'%' then err bad_encoding else cons_ok c rest
decode (c ∷ d ∷ e ∷ s) =
    let rest = decode (d ∷ e ∷ s) in
    let after = decode s in
    if c == b'+'
    then cons_ok b' ' rest
    else if c == b'%'
    then (elim (hex_pair d e) [ none ↦ err bad_encoding | some v ↦ cons_ok v after ])
    else cons_ok c rest

-- `defaultNonUrlEncodeChars`
unfoldable pub is_default_non_encoded : ℕ → Bool
is_default_non_encoded c =
    is_between b'a' b'z' c
    || is_between b'A' b'Z' c
    || is_between b'0' b'9' c
    || c == b'-'
    || c == b'.'
    || c == b'_'
    || c == b'~'

unfoldable pub contains : Bytes → ℕ → Bool
contains [] c = false
contains (x ∷ s) c = x == c || contains s c

-- `hex[v]`
abbrev pub hex_digit : ℕ → ℕ
hex_digit v = if ltb v 10 then b'0' + v else b'A' + (v - 10)

unfoldable pub encode : Bytes → Bytes → Bytes
encode do_not_encode [] = []
encode do_not_encode (c ∷ s) =
    let rest = encode do_not_encode s in
    if not (is_default_non_encoded c) && not (contains do_not_encode c)
    then b'%' ∷ hex_digit (c / 16 % 16) ∷ hex_digit (c % 16) ∷ rest
    else c ∷ rest

-- The loop of `AppendQueryParameters`. Each round consumes a byte; `none` is the lack of fuel.
unfoldable pub query_loop : ℕ → List (Bytes × Bytes) → Bytes → Option (List (Bytes × Bytes))
query_loop zero parameters s = if is_empty s then some parameters else none
query_loop (suc fuel) parameters s =
    let key = until (λ c. c == b'=') s in
    let after_key = drop 1 (from (λ c. c == b'=') s) in
    let value = until (λ c. c == b'&') after_key in
    let after_value = drop 1 (from (λ c. c == b'&') after_key) in
    let rest = query_loop fuel (assign key value parameters) after_value in
    if is_empty s then some parameters else rest

-- `if (cur != end && *cur == c) ++cur;`
abbrev pub skip_first : ℕ → Bytes → Bytes
skip_first c [] = []
skip_first c (x ∷ s) = if x == c then s else x ∷ s

-- The loop never lacks fuel here.
abbrev pub loop_result : List (Bytes × Bytes) → Option (List (Bytes × Bytes)) → List (Bytes × Bytes)
loop_result parameters none = parameters
loop_result parameters (some result) = result

unfoldable pub append_query_parameters : Url → Bytes → Url
append_query_parameters u query =
    let s = skip_first b'?' query in
    let result = query_loop (length s) u.encoded_query_parameters s in
    record u { encoded_query_parameters = loop_result u.encoded_query_parameters result }

abbrev needs_slash : Bytes → Bool
needs_slash [] = false
needs_slash (c ∷ s) = let rest = needs_slash s in if is_empty s then not (c == b'/') else rest

unfoldable pub append_path : Url → Bytes → Url
append_path u path = record u {
  encoded_path =
      (if needs_slash u.encoded_path then u.encoded_path ++ b'/' ∷ [] else u.encoded_path) ++ path;
}

unfoldable pub append_query_parameter : Url → Bytes → Bytes → Url
append_query_parameter u key value = record u {
  encoded_query_parameters = assign key value u.encoded_query_parameters;
}

unfoldable pub remove_query_parameter : Url → Bytes → Url
remove_query_parameter u key = record u {
  encoded_query_parameters = erase key u.encoded_query_parameters;
}

-- `url.find("://")`: the bytes before it and after it.
unfoldable pub find_scheme : Bytes → Option (Bytes × Bytes)
find_scheme [] = none
find_scheme (c ∷ []) = none
find_scheme (c ∷ d ∷ []) = none
find_scheme (c ∷ d ∷ e ∷ s) =
    let rest = find_scheme (d ∷ e ∷ s) in
    if c == b':' && d == b'/' && e == b'/'
    then some ([], s)
    else elim rest [ none ↦ none | some (before, after) ↦ some (c ∷ before, after) ]

abbrev pub ends_host : ℕ → Bool
ends_host c = c == b'/' || c == b'?' || c == b':'

-- The port after a colon: `std::stoi` on its digits, and what follows them.
unfoldable pub parse_port : Bytes → Result UrlError (ℕ × Bytes)
parse_port s = do
  let digits = until (λ c. not (is_decimal c)) s
  require (not (is_empty digits)) port_not_a_number
  require (leb (decimal 0 digits) 2_147_483_647) port_out_of_range
  require (leb (decimal 0 digits) 65535) port_out_of_range
  ok (decimal 0 digits, from (λ c. not (is_decimal c)) s)

abbrev pub starts_with_byte : ℕ → Bytes → Bool
starts_with_byte c [] = false
starts_with_byte c (x ∷ s) = x == c

-- The optional port.
unfoldable pub parse_optional_port : Bytes → Result UrlError (ℕ × Bytes)
parse_optional_port s = if starts_with_byte b':' s then parse_port (drop 1 s) else ok (0, s)

unfoldable pub parse_tail : Bytes → Bytes → ℕ → Bytes → Url
parse_tail scheme host port s =
    let has_path = starts_with_byte b'/' s in
    let path = if has_path then until (λ c. c == b'?') (drop 1 s) else [] in
    let after_path = if has_path then from (λ c. c == b'?') (drop 1 s) else s in
    let u : Url = record {
      scheme = scheme;
      host = host;
      port = port;
      encoded_path = path;
      encoded_query_parameters = [];
    } in
    if starts_with_byte b'?' after_path
    then append_query_parameters u (until (λ c. c == b'#') (drop 1 after_path))
    else u

-- The constructor after the scheme.
unfoldable pub parse_authority : Bytes → Bytes → Result UrlError Url
parse_authority scheme s = do
  let host = until ends_host s
  (port, after_port) ← parse_optional_port (from ends_host s)
  require
      (is_empty after_port || starts_with_byte b'/' after_port || starts_with_byte b'?' after_port)
      port_invalid_characters
  ok (parse_tail scheme host port after_port)

-- The constructor.
unfoldable pub parse : Bytes → Result UrlError Url
parse text = elim (find_scheme text) [
  | none ↦ parse_authority [] text
  | some (scheme, after) ↦ parse_authority (to_lower scheme) after
]

-- The loop over the query parameters in `GetRelativeUrl`.
unfoldable pub print_queries : List (Bytes × Bytes) → Bytes
print_queries [] = []
print_queries ((k, v) ∷ qs) = k ++ (b'=' ∷ v ++ (b'&' ∷ print_queries qs))

-- `pop_back`
unfoldable pub pop_back : Bytes → Bytes
pop_back [] = []
pop_back (c ∷ s) = let rest = pop_back s in if is_empty s then [] else c ∷ rest

unfoldable pub get_relative_url : Url → Bytes
get_relative_url u = pop_back (u.encoded_path ++ (b'?' ∷ print_queries u.encoded_query_parameters))

unfoldable pub get_absolute_url : Url → Bytes
get_absolute_url u =
    (if is_empty u.scheme then [] else u.scheme ++ codes "://")
    ++ (u.host
        ++ ((if u.port == 0 then [] else b':' ∷ to_decimal 5 u.port)
            ++ ((if is_empty u.encoded_path then [] else codes "/") ++ get_relative_url u)))
