-- ===== src/Storage/Sas/DataLake.antt =====
-- sdk/storage/azure-storage-files-datalake/src/datalake_sas_builder.cpp. A resource outside of the
-- enumeration, on which the code throws, is not among the resources here; a depth is not negative.
use azure_sdk_for_cpp.Base.{ℕ, List, [], ◌∷◌, ◌++◌, Option, none, some, Bytes, codes, to_decimal}
use azure_sdk_for_cpp.Http.Url.{append_query_parameter, get_absolute_url}
use azure_sdk_for_cpp.Storage.Credential.{StorageSharedKeyCredential}
use azure_sdk_for_cpp.Storage.Sas.{
  SasProtocol, sas_protocol_to_string, default_sas_version, letters, append_values, unless_empty,
  value_or_empty, empty_url, end_lines,
}
use azure_sdk_for_cpp.Storage.Sas.Blob.{UserDelegationKey}

pub data DataLakeSasResource : Type 0 where
  file_system path_file directory : DataLakeSasResource

unfoldable pub data_lake_sas_resource_to_string : DataLakeSasResource → Bytes
data_lake_sas_resource_to_string file_system = codes "c"
data_lake_sas_resource_to_string path_file = codes "b"
data_lake_sas_resource_to_string directory = codes "d"

pub record DataLakeSasBuilder : Type 0 where
  pub protocol : SasProtocol
  pub starts_on : Option Bytes
  pub expires_on : Bytes
  pub ip_range : Option Bytes
  pub identifier : Bytes
  pub file_system_name : Bytes
  pub path : Bytes
  pub directory_depth : Option ℕ
  pub resource : DataLakeSasResource
  pub cache_control : Bytes
  pub content_disposition : Bytes
  pub content_encoding : Bytes
  pub content_language : Bytes
  pub content_type : Bytes
  pub preauthorized_agent_object_id : Bytes
  pub agent_object_id : Bytes
  pub correlation_id : Bytes
  pub permissions : Bytes

abbrev pub file_system_permissions : List (ℕ × ℕ)
file_system_permissions =
    (1, b'r') ∷ (16, b'a') ∷ (32, b'c') ∷ (2, b'w') ∷ (4, b'd') ∷ (8, b'l') ∷ []

abbrev pub path_permissions : List (ℕ × ℕ)
path_permissions =
    (1, b'r')
    ∷ (8, b'a')
    ∷ (16, b'c')
    ∷ (2, b'w')
    ∷ (4, b'd')
    ∷ (32, b'l')
    ∷ (64, b'm')
    ∷ (128, b'e')
    ∷ (256, b'o')
    ∷ (512, b'p')
    ∷ []

unfoldable pub set_file_system_permissions : ℕ → DataLakeSasBuilder → DataLakeSasBuilder
set_file_system_permissions flags b = record b {
  permissions = letters file_system_permissions flags;
}

unfoldable pub set_path_permissions : ℕ → DataLakeSasBuilder → DataLakeSasBuilder
set_path_permissions flags b = record b { permissions = letters path_permissions flags }

-- The path in the name that an account's key signs, and in the name that a delegated key signs.
abbrev pub account_path : DataLakeSasResource → Bytes → Bytes
account_path file_system path = []
account_path path_file path = b'/' ∷ path
account_path directory path = []

abbrev pub delegated_path : DataLakeSasResource → Bytes → Bytes
delegated_path file_system path = []
delegated_path path_file path = b'/' ∷ path
delegated_path directory path = b'/' ∷ path

abbrev pub file_system_of : Bytes → DataLakeSasBuilder → Bytes
file_system_of account_name b = codes "/blob/" ++ (account_name ++ (b'/' ∷ b.file_system_name))

-- The lines from the range of addresses on, without the last one, which has no end.
unfoldable pub path_last_lines : DataLakeSasBuilder → List Bytes
path_last_lines b =
    value_or_empty b.ip_range
    ∷ sas_protocol_to_string b.protocol
    ∷ default_sas_version
    ∷ data_lake_sas_resource_to_string b.resource
    ∷ []
    ∷ b.cache_control
    ∷ b.content_disposition
    ∷ b.content_encoding
    ∷ b.content_language
    ∷ []

unfoldable pub path_lines : StorageSharedKeyCredential → DataLakeSasBuilder → List Bytes
path_lines credential b =
    b.permissions
    ∷ value_or_empty b.starts_on
    ∷ b.expires_on
    ∷ (file_system_of credential.account_name b ++ account_path b.resource b.path)
    ∷ b.identifier
    ∷ path_last_lines b

unfoldable pub path_string_to_sign : StorageSharedKeyCredential → DataLakeSasBuilder → Bytes
path_string_to_sign credential b = end_lines (path_lines credential b) ++ b.content_type

unfoldable pub path_values : DataLakeSasBuilder → Bytes → List (Bytes × Option Bytes)
path_values b signature =
    (codes "sv", some default_sas_version)
    ∷ (codes "spr", some (sas_protocol_to_string b.protocol))
    ∷ (codes "st", b.starts_on)
    ∷ (codes "se", unless_empty b.expires_on)
    ∷ (codes "sip", b.ip_range)
    ∷ (codes "si", unless_empty b.identifier)
    ∷ (codes "sr", some (data_lake_sas_resource_to_string b.resource))
    ∷ (codes "sp", unless_empty b.permissions)
    ∷ (codes "sig", some signature)
    ∷ (codes "rscc", unless_empty b.cache_control)
    ∷ (codes "rscd", unless_empty b.content_disposition)
    ∷ (codes "rsce", unless_empty b.content_encoding)
    ∷ (codes "rscl", unless_empty b.content_language)
    ∷ (codes "rsct", unless_empty b.content_type)
    ∷ []

-- `GenerateSasToken` with the key of the account.
unfoldable pub path_sas_token :
    (Bytes → Bytes → Bytes) → StorageSharedKeyCredential → DataLakeSasBuilder → Bytes
path_sas_token sign credential b =
    let signature = sign (path_string_to_sign credential b) credential.account_key in
    get_absolute_url (append_values (path_values b signature) empty_url)

unfoldable pub path_delegation_lines : UserDelegationKey → Bytes → DataLakeSasBuilder → List Bytes
path_delegation_lines key account_name b =
    b.permissions
    ∷ value_or_empty b.starts_on
    ∷ b.expires_on
    ∷ (file_system_of account_name b ++ delegated_path b.resource b.path)
    ∷ key.signed_object_id
    ∷ key.signed_tenant_id
    ∷ key.signed_starts_on
    ∷ key.signed_expires_on
    ∷ key.signed_service
    ∷ key.signed_version
    ∷ b.preauthorized_agent_object_id
    ∷ b.agent_object_id
    ∷ b.correlation_id
    ∷ path_last_lines b

unfoldable pub path_delegation_string_to_sign :
    UserDelegationKey → Bytes → DataLakeSasBuilder → Bytes
path_delegation_string_to_sign key account_name b =
    end_lines (path_delegation_lines key account_name b) ++ b.content_type

-- `std::to_string` of a depth below 2 ^ 31.
abbrev pub depth_text : Option ℕ → Option Bytes
depth_text none = none
depth_text (some depth) = some (to_decimal 10 depth)

unfoldable pub values_before_permissions : DataLakeSasBuilder → List (Bytes × Option Bytes)
values_before_permissions b =
    (codes "sv", some default_sas_version)
    ∷ (codes "sr", some (data_lake_sas_resource_to_string b.resource))
    ∷ (codes "st", b.starts_on)
    ∷ (codes "se", some b.expires_on)
    ∷ []

unfoldable pub values_after_permissions :
    UserDelegationKey → DataLakeSasBuilder → Bytes → List (Bytes × Option Bytes)
values_after_permissions key b signature =
    (codes "sip", b.ip_range)
    ∷ (codes "spr", some (sas_protocol_to_string b.protocol))
    ∷ (codes "skoid", some key.signed_object_id)
    ∷ (codes "sktid", some key.signed_tenant_id)
    ∷ (codes "skt", some key.signed_starts_on)
    ∷ (codes "ske", some key.signed_expires_on)
    ∷ (codes "sks", some key.signed_service)
    ∷ (codes "skv", some key.signed_version)
    ∷ (codes "saoid", unless_empty b.preauthorized_agent_object_id)
    ∷ (codes "suoid", unless_empty b.agent_object_id)
    ∷ (codes "scid", unless_empty b.correlation_id)
    ∷ (codes "sdd", depth_text b.directory_depth)
    ∷ (codes "rscc", unless_empty b.cache_control)
    ∷ (codes "rscd", unless_empty b.content_disposition)
    ∷ (codes "rsce", unless_empty b.content_encoding)
    ∷ (codes "rscl", unless_empty b.content_language)
    ∷ (codes "rsct", unless_empty b.content_type)
    ∷ (codes "sig", some signature)
    ∷ []

-- `GenerateSasToken` with a key that was delegated to a user. The permissions are not encoded.
unfoldable pub path_delegation_sas_token :
    (Bytes → Bytes → Bytes) → UserDelegationKey → Bytes → DataLakeSasBuilder → Bytes
path_delegation_sas_token sign key account_name b =
    let signature = sign (path_delegation_string_to_sign key account_name b) key.value in
    let before = append_values (values_before_permissions b) empty_url in
    get_absolute_url (
      append_values (values_after_permissions key b signature)
        (append_query_parameter before (codes "sp") b.permissions))
