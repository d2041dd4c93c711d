-- ===== src/Storage/Credential.antt =====
-- sdk/storage/azure-storage-common/src/storage_credential.cpp: the parts of a connection string.
pub mod Pairs
pub mod Services
mod Tests
use azure_sdk_for_cpp.Base.{
  ℕ, zero, suc, Bool, true, false, not, ◌&&◌, ◌||◌, List, [], ◌∷◌, ◌++◌, Option, none, some, ◌==◌,
  if◌then◌else◌, length, drop, Bytes, codes, until, from, is_empty, Result, ok, err, ◌>>=◌, ◌>>◌,
  require,
}
use azure_sdk_for_cpp.Dict.{find, assign}
use azure_sdk_for_cpp.Http.Url.{UrlError, Url, parse, append_query_parameters}

-- What `ParseConnectionString` throws.
pub data ConnectionError : Type 0 where
  no_account_name : ConnectionError
  bad_url : UrlError → ConnectionError

pub record StorageSharedKeyCredential : Type 0 where
  pub account_name : Bytes
  pub account_key : Bytes

pub record ConnectionStringParts : Type 0 where
  pub blob_service_url : Url
  pub file_service_url : Url
  pub queue_service_url : Url
  pub data_lake_service_url : Url
  pub key_credential : Option StorageSharedKeyCredential

abbrev pub is_equals_sign : ℕ → Bool
is_equals_sign c = c == b'='

abbrev pub is_semicolon : ℕ → Bool
is_semicolon c = c == b';'

-- The loop over the pairs. Each round consumes a byte.
unfoldable pub pairs_loop : ℕ → List (Bytes × Bytes) → Bytes → List (Bytes × Bytes)
pairs_loop zero m s = m
pairs_loop (suc fuel) m s =
    let key = until is_equals_sign s in
    let after_key = drop 1 (from is_equals_sign s) in
    let value = until is_semicolon after_key in
    let after_value = drop 1 (from is_semicolon after_key) in
    let m' = if not (is_empty key) || not (is_empty value) then assign key value m else m in
    let rest = pairs_loop fuel m' after_value in if is_empty s then m else rest

unfoldable pub connection_string_map : Bytes → List (Bytes × Bytes)
connection_string_map text = pairs_loop (length text) [] text

abbrev pub or_default : Bytes → Option Bytes → Bytes
or_default default_value none = default_value
or_default default_value (some v) = v

unfoldable pub get_with_default : List (Bytes × Bytes) → Bytes → Bytes → Bytes
get_with_default m key default_value = or_default default_value (find key m)

-- The text of the address of a service, given or made up of the name of the account.
unfoldable pub endpoint : List (Bytes × Bytes) → Bytes → Bytes → Bytes
endpoint m name service =
    let protocol = get_with_default m (codes "DefaultEndpointsProtocol") (codes "https") in
    let suffix = get_with_default m (codes "EndpointSuffix") (codes "core.windows.net") in
    let account_name = get_with_default m (codes "AccountName") [] in
    let given = get_with_default m name [] in
    if is_empty given && not (is_empty account_name)
    then protocol ++ (codes "://" ++ (account_name ++ (service ++ suffix)))
    else given

abbrev lift_url : Result UrlError Url → Result ConnectionError Url
lift_url (ok u) = ok u
lift_url (err e) = err (bad_url e)

unfoldable pub service_url : List (Bytes × Bytes) → Bytes → Bytes → Result ConnectionError Url
service_url m name service = lift_url (parse (endpoint m name service))

unfoldable pub credential_of :
    Bytes → Bytes → Result ConnectionError (Option StorageSharedKeyCredential)
credential_of account_name account_key =
    if is_empty account_key
    then ok none
    else if is_empty account_name
    then err no_account_name
    else ok (some (record { account_name = account_name; account_key = account_key }))

-- The query of a shared access signature, added where there is one.
unfoldable pub with_signature : Bytes → Url → Url
with_signature sas u = if is_empty sas then u else append_query_parameters u sas

unfoldable pub parse_connection_string : Bytes → Result ConnectionError ConnectionStringParts
parse_connection_string text = do
  let m = connection_string_map text
  blob ← service_url m (codes "BlobEndpoint") (codes ".blob.")
  data_lake ← service_url m (codes "DfsEndpoint") (codes ".dfs.")
  file ← service_url m (codes "FileEndpoint") (codes ".file.")
  queue ← service_url m (codes "QueueEndpoint") (codes ".queue.")
  credential ←
      credential_of (get_with_default m (codes "AccountName") [])
        (get_with_default m (codes "AccountKey") [])
  let sas = get_with_default m (codes "SharedAccessSignature") []
  ok (record {
    blob_service_url = with_signature sas blob;
    file_service_url = with_signature sas file;
    queue_service_url = with_signature sas queue;
    data_lake_service_url = with_signature sas data_lake;
    key_credential = credential;
  })
