-- ===== src/Storage/Sas/Tests/Paths.antt =====
-- The token of an example builder for a directory.
use azure_sdk_for_cpp.Base.{refl, arith, [], none, some, codes}
use azure_sdk_for_cpp.Http.Url.{append_query_parameters}
use azure_sdk_for_cpp.Storage.Sas.{https_and_http}
use azure_sdk_for_cpp.Storage.Sas.DataLake.{
  DataLakeSasBuilder, directory, path_delegation_sas_token,
}
use azure_sdk_for_cpp.Storage.Sas.Tests.{
  length_letter, length_letter-IsValue, container_url, delegation_key, key_fits,
}
use azure_sdk_for_cpp.Storage.Sas.Tokens.{Finds}
use azure_sdk_for_cpp.Storage.Sas.Tokens.PathLetters.{AreLetters}
use azure_sdk_for_cpp.Storage.Sas.Tokens.PathReader.{read_path_text, IsPathToken}
use azure_sdk_for_cpp.Storage.Sas.Tokens.Values.{is_value, is_value-IsValue}
use azure_sdk_for_cpp.Storage.Sas.Tokens.Paths.{PathFits, path_delegation_sas_token-IsPathToken}

abbrev path_builder : DataLakeSasBuilder
path_builder = record {
  protocol = https_and_http;
  starts_on = none;
  expires_on = codes "2026-01-02T00:00:00Z";
  ip_range = some (codes "10.0.0.1");
  identifier = [];
  file_system_name = codes "system";
  path = codes "a/b";
  directory_depth = some 2;
  resource = directory;
  cache_control = [];
  content_disposition = [];
  content_encoding = [];
  content_language = codes "en";
  content_type = [];
  preauthorized_agent_object_id = codes "agent";
  agent_object_id = [];
  correlation_id = codes "c-1";
  permissions = codes "racwdl";
}

path_fits : PathFits path_builder
unfolding is_value
path_fits = record {
  permissions_fit = is_value-IsValue (codes "racwdl") refl;
  starts_on_fits = tt;
  expires_on_fits = is_value-IsValue (codes "2026-01-02T00:00:00Z") refl;
  ip_range_fits = is_value-IsValue (codes "10.0.0.1") refl;
  identifier_fits = (tt, tt);
  preauthorized_agent_object_id_fits = is_value-IsValue (codes "agent") refl;
  agent_object_id_fits = (tt, tt);
  correlation_id_fits = is_value-IsValue (codes "c-1") refl;
  headers_fit = record {
    cache_control_fits = (tt, tt);
    content_disposition_fits = (tt, tt);
    content_encoding_fits = (tt, tt);
    content_language_fits = is_value-IsValue (codes "en") refl;
    content_type_fits = (tt, tt);
  };
}

letters_only : AreLetters path_builder.permissions
letters_only = ground arith

path_delegation_sas_token-IsPathToken_example :
    let m =
      (append_query_parameters container_url (
        path_delegation_sas_token length_letter delegation_key
          (codes "account")
          path_builder)).encoded_query_parameters in
    IsPathToken m delegation_key path_builder
    × Finds m (codes "sig") (
        some (
          length_letter
            (read_path_text (codes "account") (codes "system") (codes "a/b") m)
            (codes "a2V5")))
path_delegation_sas_token-IsPathToken_example =
    path_delegation_sas_token-IsPathToken length_letter delegation_key (codes "account")
      path_builder container_url length_letter-IsValue key_fits path_fits letters_only refl
