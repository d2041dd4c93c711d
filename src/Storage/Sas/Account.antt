-- ===== src/Storage/Sas/Account.antt =====
-- sdk/storage/azure-storage-common/src/account_sas_builder.cpp. `sign` is what the code calls to sign a
-- text with the key of the account: `Base64Encode`, `HmacSha256` and `Base64Decode`.
use azure_sdk_for_cpp.Base.{ℕ, List, [], ◌∷◌, Option, some, Bytes, codes}
use azure_sdk_for_cpp.Http.Url.{get_absolute_url}
use azure_sdk_for_cpp.Storage.Credential.{StorageSharedKeyCredential}
use azure_sdk_for_cpp.Storage.Sas.{
  SasProtocol, sas_protocol_to_string, default_sas_version, letters, append_values, value_or_empty,
  empty_url, end_lines,
}

-- The enumerations `AccountSasServices` and `AccountSasResource` are their numbers.
pub record AccountSasBuilder : Type 0 where
  pub protocol : SasProtocol
  pub starts_on : Option Bytes
  pub expires_on : Bytes
  pub ip_range : Option Bytes
  pub services : ℕ
  pub resource_types : ℕ
  pub permissions : Bytes

abbrev pub account_permissions : List (ℕ × ℕ)
account_permissions =
    (1, b'r')
    ∷ (2, b'w')
    ∷ (4, b'd')
    ∷ (8, b'x')
    ∷ (16, b'l')
    ∷ (32, b'a')
    ∷ (64, b'c')
    ∷ (128, b'u')
    ∷ (256, b'p')
    ∷ (512, b't')
    ∷ (1024, b'f')
    ∷ []

unfoldable pub set_permissions : ℕ → AccountSasBuilder → AccountSasBuilder
set_permissions flags b = record b { permissions = letters account_permissions flags }

-- The overload for a text.
set_raw_permissions : Bytes → AccountSasBuilder → AccountSasBuilder
set_raw_permissions raw_permissions b = record b { permissions = raw_permissions }

abbrev pub account_services : List (ℕ × ℕ)
account_services = (1, b'b') ∷ (2, b'q') ∷ (4, b'f') ∷ []

abbrev pub account_resource_types : List (ℕ × ℕ)
account_resource_types = (1, b's') ∷ (2, b'c') ∷ (4, b'o') ∷ []

unfoldable pub account_lines : StorageSharedKeyCredential → AccountSasBuilder → List Bytes
account_lines credential b =
    credential.account_name
    ∷ b.permissions
    ∷ letters account_services b.services
    ∷ letters account_resource_types b.resource_types
    ∷ value_or_empty b.starts_on
    ∷ b.expires_on
    ∷ value_or_empty b.ip_range
    ∷ sas_protocol_to_string b.protocol
    ∷ default_sas_version
    ∷ []

unfoldable pub account_string_to_sign : StorageSharedKeyCredential → AccountSasBuilder → Bytes
account_string_to_sign credential b = end_lines (account_lines credential b)

unfoldable pub account_values : AccountSasBuilder → Bytes → List (Bytes × Option Bytes)
account_values b signature =
    (codes "sv", some default_sas_version)
    ∷ (codes "ss", some (letters account_services b.services))
    ∷ (codes "srt", some (letters account_resource_types b.resource_types))
    ∷ (codes "sp", some b.permissions)
    ∷ (codes "st", b.starts_on)
    ∷ (codes "se", some b.expires_on)
    ∷ (codes "sip", b.ip_range)
    ∷ (codes "spr", some (sas_protocol_to_string b.protocol))
    ∷ (codes "sig", some signature)
    ∷ []

-- `GenerateSasToken`.
unfoldable pub account_sas_token :
    (Bytes → Bytes → Bytes) → StorageSharedKeyCredential → AccountSasBuilder → Bytes
account_sas_token sign credential b =
    let signature = sign (account_string_to_sign credential b) credential.account_key in
    get_absolute_url (append_values (account_values b signature) empty_url)
