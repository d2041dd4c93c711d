-- ===== src/Storage/Sas/Blob.antt =====
-- sdk/storage/azure-storage-blobs/src/blob_sas_builder.cpp. A resource outside of the enumeration, on
-- which the code throws, is not among the resources here.
use azure_sdk_for_cpp.Base.{
  ℕ, Bool, true, false, List, [], ◌∷◌, ◌++◌, Option, some, if◌then◌else◌, Bytes, codes,
}
use azure_sdk_for_cpp.Http.Url.{get_absolute_url}
use azure_sdk_for_cpp.Storage.Credential.{StorageSharedKeyCredential}
use azure_sdk_for_cpp.Storage.Sas.{
  SasProtocol, sas_protocol_to_string, default_sas_version, letters, append_values, unless_empty,
  value_or_empty, empty_url, end_lines,
}

pub data BlobSasResource : Type 0 where
  blob_container blob blob_snapshot blob_version : BlobSasResource

unfoldable pub blob_sas_resource_to_string : BlobSasResource → Bytes
blob_sas_resource_to_string blob_container = codes "c"
blob_sas_resource_to_string blob = codes "b"
blob_sas_resource_to_string blob_snapshot = codes "bs"
blob_sas_resource_to_string blob_version = codes "bv"

pub record BlobSasBuilder : Type 0 where
  pub protocol : SasProtocol
  pub starts_on : Option Bytes
  pub expires_on : Bytes
  pub ip_range : Option Bytes
  pub identifier : Bytes
  pub blob_container_name : Bytes
  pub blob_name : Bytes
  pub snapshot : Bytes
  pub blob_version_id : Bytes
  pub resource : BlobSasResource
  pub cache_control : Bytes
  pub content_disposition : Bytes
  pub content_encoding : Bytes
  pub content_language : Bytes
  pub content_type : Bytes
  pub permissions : Bytes

abbrev pub container_permissions : List (ℕ × ℕ)
container_permissions =
    (1, b'r')
    ∷ (16, b'a')
    ∷ (32, b'c')
    ∷ (2, b'w')
    ∷ (4, b'd')
    ∷ (128, b'x')
    ∷ (8, b'l')
    ∷ (64, b't')
    ∷ []

abbrev pub blob_permissions : List (ℕ × ℕ)
blob_permissions =
    (1, b'r') ∷ (8, b'a') ∷ (16, b'c') ∷ (2, b'w') ∷ (4, b'd') ∷ (64, b'x') ∷ (32, b't') ∷ []

unfoldable pub set_container_permissions : ℕ → BlobSasBuilder → BlobSasBuilder
set_container_permissions flags b = record b { permissions = letters container_permissions flags }

unfoldable pub set_blob_permissions : ℕ → BlobSasBuilder → BlobSasBuilder
set_blob_permissions flags b = record b { permissions = letters blob_permissions flags }

abbrev pub names_blob : BlobSasResource → Bool
names_blob blob_container = false
names_blob blob = true
names_blob blob_snapshot = true
names_blob blob_version = true

unfoldable pub canonical_name : Bytes → BlobSasBuilder → Bytes
canonical_name account_name b =
    let container = codes "/blob/" ++ (account_name ++ (b'/' ∷ b.blob_container_name)) in
    if names_blob b.resource then container ++ (b'/' ∷ b.blob_name) else container

abbrev pub version_of : BlobSasResource → BlobSasBuilder → Bytes
version_of blob_container b = []
version_of blob b = []
version_of blob_snapshot b = b.snapshot
version_of blob_version b = b.blob_version_id

unfoldable pub snapshot_version : BlobSasBuilder → Bytes
snapshot_version b = version_of b.resource b

-- The lines from the range of addresses on, without the last one, which has no end.
unfoldable pub last_lines : BlobSasBuilder → List Bytes
last_lines b =
    value_or_empty b.ip_range
    ∷ sas_protocol_to_string b.protocol
    ∷ default_sas_version
    ∷ blob_sas_resource_to_string b.resource
    ∷ snapshot_version b
    ∷ b.cache_control
    ∷ b.content_disposition
    ∷ b.content_encoding
    ∷ b.content_language
    ∷ []

unfoldable pub blob_lines : StorageSharedKeyCredential → BlobSasBuilder → List Bytes
blob_lines credential b =
    b.permissions
    ∷ value_or_empty b.starts_on
    ∷ b.expires_on
    ∷ canonical_name credential.account_name b
    ∷ b.identifier
    ∷ last_lines b

unfoldable pub blob_string_to_sign : StorageSharedKeyCredential → BlobSasBuilder → Bytes
blob_string_to_sign credential b = end_lines (blob_lines credential b) ++ b.content_type

unfoldable pub blob_values : BlobSasBuilder → Bytes → List (Bytes × Option Bytes)
blob_values b signature =
    (codes "sv", some default_sas_version)
    ∷ (codes "spr", some (sas_protocol_to_string b.protocol))
    ∷ (codes "st", b.starts_on)
    ∷ (codes "se", unless_empty b.expires_on)
    ∷ (codes "sip", b.ip_range)
    ∷ (codes "si", unless_empty b.identifier)
    ∷ (codes "sr", some (blob_sas_resource_to_string b.resource))
    ∷ (codes "sp", unless_empty b.permissions)
    ∷ (codes "sig", some signature)
    ∷ (codes "rscc", unless_empty b.cache_control)
    ∷ (codes "rscd", unless_empty b.content_disposition)
    ∷ (codes "rsce", unless_empty b.content_encoding)
    ∷ (codes "rscl", unless_empty b.content_language)
    ∷ (codes "rsct", unless_empty b.content_type)
    ∷ []

-- `GenerateSasToken` with the key of the account.
unfoldable pub blob_sas_token :
    (Bytes → Bytes → Bytes) → StorageSharedKeyCredential → BlobSasBuilder → Bytes
blob_sas_token sign credential b =
    let signature = sign (blob_string_to_sign credential b) credential.account_key in
    get_absolute_url (append_values (blob_values b signature) empty_url)

pub record UserDelegationKey : Type 0 where
  pub signed_object_id : Bytes
  pub signed_tenant_id : Bytes
  pub signed_starts_on : Bytes
  pub signed_expires_on : Bytes
  pub signed_service : Bytes
  pub signed_version : Bytes
  pub value : Bytes

unfoldable pub delegation_lines : UserDelegationKey → Bytes → BlobSasBuilder → List Bytes
delegation_lines key account_name b =
    b.permissions
    ∷ value_or_empty b.starts_on
    ∷ b.expires_on
    ∷ canonical_name account_name b
    ∷ key.signed_object_id
    ∷ key.signed_tenant_id
    ∷ key.signed_starts_on
    ∷ key.signed_expires_on
    ∷ key.signed_service
    ∷ key.signed_version
    ∷ []
    ∷ []
    ∷ []
    ∷ last_lines b

unfoldable pub delegation_string_to_sign : UserDelegationKey → Bytes → BlobSasBuilder → Bytes
delegation_string_to_sign key account_name b =
    end_lines (delegation_lines key account_name b) ++ b.content_type

unfoldable pub delegation_values :
    UserDelegationKey → BlobSasBuilder → Bytes → List (Bytes × Option Bytes)
delegation_values key b signature =
    (codes "sv", some default_sas_version)
    ∷ (codes "sr", some (blob_sas_resource_to_string b.resource))
    ∷ (codes "st", b.starts_on)
    ∷ (codes "se", some b.expires_on)
    ∷ (codes "sp", some b.permissions)
    ∷ (codes "sip", b.ip_range)
    ∷ (codes "spr", some (sas_protocol_to_string b.protocol))
    ∷ (codes "skoid", some key.signed_object_id)
    ∷ (codes "sktid", some key.signed_tenant_id)
    ∷ (codes "skt", some key.signed_starts_on)
    ∷ (codes "ske", some key.signed_expires_on)
    ∷ (codes "sks", some key.signed_service)
    ∷ (codes "skv", some key.signed_version)
    ∷ (codes "rscc", unless_empty b.cache_control)
    ∷ (codes "rscd", unless_empty b.content_disposition)
    ∷ (codes "rsce", unless_empty b.content_encoding)
    ∷ (codes "rscl", unless_empty b.content_language)
    ∷ (codes "rsct", unless_empty b.content_type)
    ∷ (codes "sig", some signature)
    ∷ []

-- `GenerateSasToken` with a key that was delegated to a user.
unfoldable pub delegation_sas_token :
    (Bytes → Bytes → Bytes) → UserDelegationKey → Bytes → BlobSasBuilder → Bytes
delegation_sas_token sign key account_name b =
    let signature = sign (delegation_string_to_sign key account_name b) key.value in
    get_absolute_url (append_values (delegation_values key b signature) empty_url)
