-- ===== src/Storage/Sas/Share.antt =====
-- sdk/storage/azure-storage-files-shares/src/share_sas_builder.cpp. A resource outside of the
-- enumeration, on which the code throws, is not among the resources here.
use azure_sdk_for_cpp.Base.{ℕ, List, [], ◌∷◌, ◌++◌, Option, some, Bytes, codes}
use azure_sdk_for_cpp.Http.Url.{get_absolute_url}
use azure_sdk_for_cpp.Storage.Credential.{StorageSharedKeyCredential}
use azure_sdk_for_cpp.Storage.Sas.{
  SasProtocol, sas_protocol_to_string, default_sas_version, letters, append_values, unless_empty,
  value_or_empty, empty_url, end_lines,
}

pub data ShareSasResource : Type 0 where
  share share_file : ShareSasResource

unfoldable pub share_sas_resource_to_string : ShareSasResource → Bytes
share_sas_resource_to_string share = codes "s"
share_sas_resource_to_string share_file = codes "f"

pub record ShareSasBuilder : Type 0 where
  pub protocol : SasProtocol
  pub starts_on : Option Bytes
  pub expires_on : Bytes
  pub ip_range : Option Bytes
  pub identifier : Bytes
  pub share_name : Bytes
  pub file_path : Bytes
  pub resource : ShareSasResource
  pub cache_control : Bytes
  pub content_disposition : Bytes
  pub content_encoding : Bytes
  pub content_language : Bytes
  pub content_type : Bytes
  pub permissions : Bytes

abbrev pub share_permissions : List (ℕ × ℕ)
share_permissions = (1, b'r') ∷ (16, b'c') ∷ (2, b'w') ∷ (4, b'd') ∷ (8, b'l') ∷ []

abbrev pub share_file_permissions : List (ℕ × ℕ)
share_file_permissions = (1, b'r') ∷ (8, b'c') ∷ (2, b'w') ∷ (4, b'd') ∷ []

unfoldable pub set_share_permissions : ℕ → ShareSasBuilder → ShareSasBuilder
set_share_permissions flags b = record b { permissions = letters share_permissions flags }

unfoldable pub set_share_file_permissions : ℕ → ShareSasBuilder → ShareSasBuilder
set_share_file_permissions flags b = record b { permissions = letters share_file_permissions flags }

abbrev pub path_in_share : ShareSasResource → Bytes → Bytes
path_in_share share path = []
path_in_share share_file path = b'/' ∷ path

unfoldable pub share_canonical_name : Bytes → ShareSasBuilder → Bytes
share_canonical_name account_name b =
    (codes "/file/" ++ (account_name ++ (b'/' ∷ b.share_name)))
    ++ path_in_share b.resource b.file_path

unfoldable pub share_lines : StorageSharedKeyCredential → ShareSasBuilder → List Bytes
share_lines credential b =
    b.permissions
    ∷ value_or_empty b.starts_on
    ∷ b.expires_on
    ∷ share_canonical_name credential.account_name b
    ∷ b.identifier
    ∷ value_or_empty b.ip_range
    ∷ sas_protocol_to_string b.protocol
    ∷ default_sas_version
    ∷ b.cache_control
    ∷ b.content_disposition
    ∷ b.content_encoding
    ∷ b.content_language
    ∷ []

unfoldable pub share_string_to_sign : StorageSharedKeyCredential → ShareSasBuilder → Bytes
share_string_to_sign credential b = end_lines (share_lines credential b) ++ b.content_type

unfoldable pub share_values : ShareSasBuilder → Bytes → List (Bytes × Option Bytes)
share_values b signature =
    (codes "sv", some default_sas_version)
    ∷ (codes "spr", some (sas_protocol_to_string b.protocol))
    ∷ (codes "st", b.starts_on)
    ∷ (codes "se", unless_empty b.expires_on)
    ∷ (codes "sip", b.ip_range)
    ∷ (codes "si", unless_empty b.identifier)
    ∷ (codes "sr", some (share_sas_resource_to_string b.resource))
    ∷ (codes "sp", unless_empty b.permissions)
    ∷ (codes "sig", some signature)
    ∷ (codes "rscc", unless_empty b.cache_control)
    ∷ (codes "rscd", unless_empty b.content_disposition)
    ∷ (codes "rsce", unless_empty b.content_encoding)
    ∷ (codes "rscl", unless_empty b.content_language)
    ∷ (codes "rsct", unless_empty b.content_type)
    ∷ []

-- `GenerateSasToken`.
unfoldable pub share_sas_token :
    (Bytes → Bytes → Bytes) → StorageSharedKeyCredential → ShareSasBuilder → Bytes
share_sas_token sign credential b =
    let signature = sign (share_string_to_sign credential b) credential.account_key in
    get_absolute_url (append_values (share_values b signature) empty_url)
