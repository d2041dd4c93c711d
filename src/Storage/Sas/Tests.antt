-- ===== src/Storage/Sas/Tests.antt =====
-- Tokens of example builders.
mod Paths
use azure_sdk_for_cpp.Base.{
  ◌+◌, ◌/◌, ◌==◌, ◌%◌, ◌^◌, ◌≡◌, refl, arith, Bool, true, ◌&&◌, List, [], ◌∷◌, none, some, Bytes,
  codes, length, none_passes, none_passes-Without,
}
use azure_sdk_for_cpp.Http.Url.{
  Url, append_query_parameters, encode, contains, is_default_non_encoded,
}
use azure_sdk_for_cpp.Storage.Credential.{StorageSharedKeyCredential}
use azure_sdk_for_cpp.Storage.Sas.{
  url_encode_query_parameter, remove_if, https_only, sas_protocol_to_string, letters, has,
}
use azure_sdk_for_cpp.Storage.Sas.Account.{
  AccountSasBuilder, set_permissions, account_permissions, account_lines, account_string_to_sign,
  account_values, account_sas_token,
}
use azure_sdk_for_cpp.Storage.Sas.Blob.{
  BlobSasBuilder, blob_snapshot, UserDelegationKey, blob_values, blob_string_to_sign,
  blob_sas_token, delegation_values, delegation_string_to_sign, delegation_sas_token, blob_lines,
  last_lines, canonical_name, snapshot_version, blob_sas_resource_to_string,
}
use azure_sdk_for_cpp.Storage.Sas.Letters.{set_permissions-contains}
use azure_sdk_for_cpp.Storage.Sas.Lines.{
  is_newline, HaveNoNewline, account_string_to_sign_injective,
}
use azure_sdk_for_cpp.Storage.Sas.Tokens.{IsValue, Finds}
use azure_sdk_for_cpp.Storage.Sas.Tokens.Values.{is_value, is_value-IsValue, KeyFits}
use azure_sdk_for_cpp.Storage.Sas.Tokens.Accounts.{
  AccountFits, read_account_text, IsAccountToken, account_sas_token-IsAccountToken,
}
use azure_sdk_for_cpp.Storage.Sas.Tokens.BlobReader.{request_for, read_blob_text, IsBlobToken}
use azure_sdk_for_cpp.Storage.Sas.Tokens.DelegationReader.{read_delegation_text, IsDelegationToken}
use azure_sdk_for_cpp.Storage.Sas.Tokens.Blobs.{
  BlobFits, blob_sas_token-IsBlobToken, delegation_sas_token-IsDelegationToken,
}

-- A letter for the length of the text.
length_letter : Bytes → Bytes → Bytes
length_letter text key = (b'A' + length text % 26) ∷ codes "="

length_letter-IsValue : (text key : Bytes) → IsValue (length_letter text key)
unfolding length_letter
length_letter-IsValue text key = ((omega arith, (omega arith, tt)), (ground arith, (refl, tt)))

abbrev credential : StorageSharedKeyCredential
credential = record { account_name = codes "account"; account_key = codes "a2V5" }

abbrev account_builder : AccountSasBuilder
account_builder = record {
  protocol = https_only;
  starts_on = none;
  expires_on = codes "2026-01-02T03:04:05Z";
  ip_range = some (codes "10.0.0.1-10.0.0.9");
  services = 1;
  resource_types = 6;
  permissions = codes "rl";
}

abbrev container_url : Url
container_url = record {
  scheme = codes "https";
  host = codes "account.blob.core.windows.net";
  port = 0;
  encoded_path = codes "container";
  encoded_query_parameters = [];
}

abbrev blob_builder : BlobSasBuilder
blob_builder = record {
  protocol = https_only;
  starts_on = some (codes "2026-01-01T00:00:00Z");
  expires_on = codes "2026-01-02T00:00:00Z";
  ip_range = none;
  identifier = [];
  blob_container_name = codes "container";
  blob_name = codes "a/b c";
  snapshot = codes "2025-12-31T00:00:00.0000000Z";
  blob_version_id = [];
  resource = blob_snapshot;
  cache_control = codes "no-cache";
  content_disposition = codes "attachment; filename=x";
  content_encoding = [];
  content_language = [];
  content_type = codes "text/plain";
  permissions = codes "r";
}

abbrev delegation_key : UserDelegationKey
delegation_key = record {
  signed_object_id = codes "object";
  signed_tenant_id = codes "tenant";
  signed_starts_on = codes "2026-01-01";
  signed_expires_on = codes "2026-02-01";
  signed_service = codes "b";
  signed_version = codes "2020-02-10";
  value = codes "a2V5";
}

account_fits : AccountFits account_builder
unfolding is_value
account_fits = (
  is_value-IsValue (codes "rl") refl,
  (
    tt,
    (
      is_value-IsValue (codes "2026-01-02T03:04:05Z") refl,
      is_value-IsValue (codes "10.0.0.1-10.0.0.9") refl,
    ),
  ),
)

blob_fits : BlobFits blob_builder
unfolding is_value
blob_fits = record {
  permissions_fit = is_value-IsValue (codes "r") refl;
  starts_on_fits = is_value-IsValue (codes "2026-01-01T00:00:00Z") refl;
  expires_on_fits = is_value-IsValue (codes "2026-01-02T00:00:00Z") refl;
  ip_range_fits = tt;
  identifier_fits = (tt, tt);
  headers_fit = record {
    cache_control_fits = is_value-IsValue (codes "no-cache") refl;
    content_disposition_fits = is_value-IsValue (codes "attachment; filename=x") refl;
    content_encoding_fits = (tt, tt);
    content_language_fits = (tt, tt);
    content_type_fits = is_value-IsValue (codes "text/plain") refl;
  };
}

key_fits : KeyFits delegation_key
unfolding is_value
key_fits = record {
  signed_object_id_fits = is_value-IsValue (codes "object") refl;
  signed_tenant_id_fits = is_value-IsValue (codes "tenant") refl;
  signed_starts_on_fits = is_value-IsValue (codes "2026-01-01") refl;
  signed_expires_on_fits = is_value-IsValue (codes "2026-02-01") refl;
  signed_service_fits = is_value-IsValue (codes "b") refl;
  signed_version_fits = is_value-IsValue (codes "2020-02-10") refl;
}

-- A flag without a name.
abbrev other_account_builder : AccountSasBuilder
other_account_builder = record account_builder { services = 9 }

account_has_no_newline : HaveNoNewline credential account_builder
account_has_no_newline = record {
  account_name_line = none_passes-Without is_newline (codes "account") refl;
  permissions_line = none_passes-Without is_newline (codes "rl") refl;
  starts_on_line = tt;
  expires_on_line = none_passes-Without is_newline (codes "2026-01-02T03:04:05Z") refl;
  ip_range_line = none_passes-Without is_newline (codes "10.0.0.1-10.0.0.9") refl;
}

other_account_has_no_newline : HaveNoNewline credential other_account_builder
other_account_has_no_newline = record {
  account_name_line = none_passes-Without is_newline (codes "account") refl;
  permissions_line = none_passes-Without is_newline (codes "rl") refl;
  starts_on_line = tt;
  expires_on_line = none_passes-Without is_newline (codes "2026-01-02T03:04:05Z") refl;
  ip_range_line = none_passes-Without is_newline (codes "10.0.0.1-10.0.0.9") refl;
}

same_account_string :
    account_string_to_sign credential account_builder
    ≡ account_string_to_sign credential other_account_builder
unfolding account_string_to_sign account_lines letters has
same_account_string = refl

set_permissions-contains_example :
    let permissions = (set_permissions 1029 account_builder).permissions in
    (contains permissions b'r' ≡ (1029 % 2 == 1))
    × (contains permissions b'w' ≡ (1029 / 2 % 2 == 1))
    × (contains permissions b'd' ≡ (1029 / 4 % 2 == 1))
    × (contains permissions b'x' ≡ (1029 / 8 % 2 == 1))
    × (contains permissions b'l' ≡ (1029 / 16 % 2 == 1))
    × (contains permissions b'a' ≡ (1029 / 32 % 2 == 1))
    × (contains permissions b'c' ≡ (1029 / 64 % 2 == 1))
    × (contains permissions b'u' ≡ (1029 / 128 % 2 == 1))
    × (contains permissions b'p' ≡ (1029 / 256 % 2 == 1))
    × (contains permissions b't' ≡ (1029 / 512 % 2 == 1))
    × (contains permissions b'f' ≡ (1029 / 1024 % 2 == 1))
set_permissions-contains_example = set_permissions-contains 1029 account_builder

account_string_to_sign_injective_example :
    (codes "account" ≡ codes "account")
    × (codes "rl" ≡ codes "rl")
    × (1 % 8 ≡ 9 % 8)
    × (6 % 8 ≡ 6 % 8)
    × (◌≡◌ {A = Bytes} [] [])
    × (codes "2026-01-02T03:04:05Z" ≡ codes "2026-01-02T03:04:05Z")
    × (codes "10.0.0.1-10.0.0.9" ≡ codes "10.0.0.1-10.0.0.9")
    × (https_only ≡ https_only)
account_string_to_sign_injective_example =
    account_string_to_sign_injective credential credential account_builder other_account_builder
      account_has_no_newline other_account_has_no_newline same_account_string

account_sas_token-IsAccountToken_example :
    let m =
      (append_query_parameters container_url
        (account_sas_token length_letter credential account_builder)).encoded_query_parameters in
    IsAccountToken m account_builder
    × Finds m
        (codes "sig")
        (some (length_letter (read_account_text (codes "account") m) (codes "a2V5")))
account_sas_token-IsAccountToken_example =
    account_sas_token-IsAccountToken length_letter credential account_builder container_url
      length_letter-IsValue account_fits refl

blob_sas_token-IsBlobToken_example :
    let m =
      (append_query_parameters container_url
        (blob_sas_token length_letter credential blob_builder)).encoded_query_parameters in
    IsBlobToken m blob_builder
    × Finds m (codes "sig") (
        some (
          length_letter
            (read_blob_text (request_for (codes "account") blob_builder) m)
            (codes "a2V5")))
blob_sas_token-IsBlobToken_example =
    blob_sas_token-IsBlobToken length_letter credential blob_builder container_url
      length_letter-IsValue blob_fits refl

delegation_sas_token-IsDelegationToken_example :
    let m =
      (append_query_parameters container_url (
        delegation_sas_token length_letter delegation_key
          (codes "account")
          blob_builder)).encoded_query_parameters in
    IsDelegationToken m delegation_key blob_builder
    × Finds m (codes "sig") (
        some (
          length_letter
            (read_delegation_text (request_for (codes "account") blob_builder) m)
            (codes "a2V5")))
delegation_sas_token-IsDelegationToken_example =
    delegation_sas_token-IsDelegationToken length_letter delegation_key (codes "account")
      blob_builder container_url length_letter-IsValue key_fits blob_fits refl

-- The ampersand stays, and a reader ends the value there.
ampersand_kept : url_encode_query_parameter (codes "a&b c") ≡ codes "a&b%20c"
unfolding url_encode_query_parameter remove_if encode contains is_default_non_encoded
ampersand_kept = refl
