-- ===== src/Storage/SharedKey.antt =====
-- sdk/storage/azure-storage-common/src/shared_key_policy.cpp: the text of a request that is signed. The
-- hash and base 64 are left out.
pub mod Canonical
mod Tests
use azure_sdk_for_cpp.Base.{
  Bool, true, false, ◌&&◌, List, [], ◌∷◌, ◌++◌, Option, none, some, ◌==◌, if◌then◌else◌, Bytes,
  codes, eqb, before, Result, ok, err, ◌>>=◌,
}
use azure_sdk_for_cpp.Strings.{to_lower}
use azure_sdk_for_cpp.Dict.{find}
use azure_sdk_for_cpp.Http.Url.{UrlError, decode, pop_back}
use azure_sdk_for_cpp.Http.Request.{Request, http_method_to_string, get_headers}

abbrev signed_header_names : List Bytes
signed_header_names =
    codes "Content-Encoding"
    ∷ codes "Content-Language"
    ∷ codes "Content-Length"
    ∷ codes "Content-MD5"
    ∷ codes "Content-Type"
    ∷ codes "Date"
    ∷ codes "If-Modified-Since"
    ∷ codes "If-Match"
    ∷ codes "If-None-Match"
    ∷ codes "If-Unmodified-Since"
    ∷ codes "Range"
    ∷ []

abbrev signed_value : Bytes → Option Bytes → Bytes
signed_value name none = []
signed_value name (some v) =
    if eqb name (codes "Content-Length") && eqb v (codes "0") then [] else v

unfoldable pub header_lines : List (Bytes × Bytes) → List Bytes → Bytes
header_lines headers [] = []
header_lines headers (name ∷ names) =
    signed_value name (find (to_lower name) headers) ++ (b'\n' ∷ header_lines headers names)

-- `substr(0, prefix.length()) == prefix`
unfoldable pub starts_with : Bytes → Bytes → Bool
starts_with [] s = true
starts_with (c ∷ p) [] = false
starts_with (c ∷ p) (d ∷ s) = let rest = starts_with p s in c == d && rest

abbrev pub ms_prefix : Bytes
ms_prefix = codes "x-ms-"

-- `lower_bound`
unfoldable pub lower_bound : Bytes → List (Bytes × Bytes) → List (Bytes × Bytes)
lower_bound p [] = []
lower_bound p ((k, v) ∷ m) = let rest = lower_bound p m in if before k p then rest else (k, v) ∷ m

-- The loop from there on.
unfoldable pub while_prefixed : Bytes → List (Bytes × Bytes) → List (Bytes × Bytes)
while_prefixed p [] = []
while_prefixed p ((k, v) ∷ m) =
    let rest = while_prefixed p m in if starts_with p k then (to_lower k, v) ∷ rest else []

-- `<` on pairs of strings.
abbrev pub pair_before : Bytes × Bytes → Bytes × Bytes → Bool
pair_before (a, b) (c, d) = if before a c then true else if before c a then false else before b d

-- `std::sort`
unfoldable pub insert_pair : Bytes × Bytes → List (Bytes × Bytes) → List (Bytes × Bytes)
insert_pair x [] = x ∷ []
insert_pair x (y ∷ ys) =
    let rest = insert_pair x ys in if pair_before y x then y ∷ rest else x ∷ y ∷ ys

unfoldable pub sort_pairs : List (Bytes × Bytes) → List (Bytes × Bytes)
sort_pairs [] = []
sort_pairs (x ∷ xs) = insert_pair x (sort_pairs xs)

unfoldable pub canonicalized_headers : List (Bytes × Bytes) → List (Bytes × Bytes)
canonicalized_headers headers =
    sort_pairs (while_prefixed ms_prefix (lower_bound ms_prefix headers))

unfoldable pub pair_lines : List (Bytes × Bytes) → Bytes
pair_lines [] = []
pair_lines ((k, v) ∷ m) = k ++ (b':' ∷ v ++ (b'\n' ∷ pair_lines m))

unfoldable pub decoded_queries : List (Bytes × Bytes) → Result UrlError (List (Bytes × Bytes))
decoded_queries [] = ok []
decoded_queries ((k, v) ∷ m) = do
  key ← decode (to_lower k)
  value ← decode v
  rest ← decoded_queries m
  ok ((key, value) ∷ rest)

unfoldable pub string_to_sign : Bytes → Request → Result UrlError Bytes
string_to_sign account_name r = do
  queries ← decoded_queries r.url.encoded_query_parameters
  ok (
      pop_back (
        http_method_to_string r.method
        ++ (b'\n' ∷ header_lines (get_headers r) signed_header_names
            ++ (pair_lines (canonicalized_headers (get_headers r))
                ++ (b'/' ∷ account_name
                    ++ (b'/' ∷ r.url.encoded_path ++ (b'\n' ∷ pair_lines (sort_pairs queries))))))))
