-- ===== src/Storage/Sas.antt =====
-- What the builders of shared access signatures share: sdk/storage/azure-storage-common/inc/azure/
-- storage/common/account_sas_builder.hpp, constants.hpp and `UrlEncodeQueryParameter` of src/crypt.cpp.
pub mod Account
pub mod Blob
pub mod DataLake
pub mod Share
pub mod Letters
pub mod Lines
pub mod Tokens
mod Tests
use Prim.Native.Nat.{bit_and}
use azure_sdk_for_cpp.Base.{
  ℕ, Bool, true, false, not, ◌||◌, List, [], ◌∷◌, ◌++◌, Option, none, some, ◌==◌, if◌then◌else◌,
  Bytes, codes, is_empty,
}
use azure_sdk_for_cpp.Http.Url.{Url, encode, append_query_parameter}

pub data SasProtocol : Type 0 where
  https_and_http https_only : SasProtocol

unfoldable pub sas_protocol_to_string : SasProtocol → Bytes
sas_protocol_to_string https_and_http = codes "https,http"
sas_protocol_to_string https_only = codes "https"

abbrev pub default_sas_version : Bytes
default_sas_version = codes "2020-02-10"

abbrev pub subdelimiters : Bytes
subdelimiters = codes "!$&'()*+,;="

-- `erase` and `remove_if`.
unfoldable pub remove_if : (ℕ → Bool) → Bytes → Bytes
remove_if test [] = []
remove_if test (c ∷ s) = let rest = remove_if test s in if test c then rest else c ∷ rest

unfoldable pub url_encode_query_parameter : Bytes → Bytes
url_encode_query_parameter value =
    encode (remove_if (λ x. x == b'+' || x == b'=') (subdelimiters ++ codes "/:@?")) value

unfoldable pub url_encode_path : Bytes → Bytes
url_encode_path value = encode (remove_if (λ x. x == b'+') (subdelimiters ++ codes "/:@")) value

-- `(flags & flag) == flag`
unfoldable pub has : ℕ → ℕ → Bool
has flags flag = bit_and flags flag == flag

-- A letter for each flag that is set, in the order of the tests.
unfoldable pub letters : List (ℕ × ℕ) → ℕ → Bytes
letters [] flags = []
letters ((flag, letter) ∷ tests) flags =
    let rest = letters tests flags in if has flags flag then letter ∷ rest else rest

-- The calls of `AppendQueryParameter` one after the other; what a condition leaves out is `none`.
unfoldable pub append_values : List (Bytes × Option Bytes) → Url → Url
append_values [] u = u
append_values ((key, none) ∷ values) u = append_values values u
append_values ((key, some value) ∷ values) u =
    append_values values (append_query_parameter u key (url_encode_query_parameter value))

-- `if (!value.empty())`
unfoldable pub unless_empty : Bytes → Option Bytes
unless_empty value = if is_empty value then none else some value

abbrev pub value_or_empty : Option Bytes → Bytes
value_or_empty none = []
value_or_empty (some value) = value

-- `Azure::Core::Http::Url builder;`
abbrev pub empty_url : Url
empty_url = record {
  scheme = [];
  host = [];
  port = 0;
  encoded_path = [];
  encoded_query_parameters = [];
}

-- Each line and its end.
unfoldable pub end_lines : List Bytes → Bytes
end_lines [] = []
end_lines (line ∷ lines) = line ++ (b'\n' ∷ end_lines lines)
