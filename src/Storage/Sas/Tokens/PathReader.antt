-- ===== src/Storage/Sas/Tokens/PathReader.antt =====
-- What a service reads of the token for a path of a data lake that a delegated key signs.
use azure_sdk_for_cpp.Base.{
  ℕ, none, to_decimal, ◌≡◌, refl, subst, List, [], ◌∷◌, ◌++◌, Option, some, Bytes, codes, eqb,
  if◌then◌else◌,
}
use azure_sdk_for_cpp.Storage.Sas.{sas_protocol_to_string, end_lines}
use azure_sdk_for_cpp.Storage.Sas.Blob.{UserDelegationKey}
use azure_sdk_for_cpp.Storage.Sas.DataLake.{
  DataLakeSasBuilder, DataLakeSasResource, file_system, path_file, directory,
  data_lake_sas_resource_to_string, file_system_of, delegated_path, path_last_lines,
  path_delegation_lines, path_delegation_string_to_sign, depth_text, values_before_permissions,
  values_after_permissions,
}
use azure_sdk_for_cpp.Storage.Sas.Tokens.{Finds, FindsAll}
use azure_sdk_for_cpp.Storage.Sas.Tokens.Reader.{
  value_at, value_at-Finds, given, Finds-given, value_at-given, documented_lines,
  documented_protocol, Finds-protocol, AreHeaders, AreKeyParts,
}
use azure_sdk_for_cpp.Storage.Sas.Tokens.Values.{HeaderTexts}

abbrev pub headers : DataLakeSasBuilder → HeaderTexts
headers b = record {
  cache_control = b.cache_control;
  content_disposition = b.content_disposition;
  content_encoding = b.content_encoding;
  content_language = b.content_language;
  content_type = b.content_type;
}

-- The documented text of the kinds of resources.
abbrev pub documented_resource : DataLakeSasResource → Bytes
documented_resource file_system = codes "c"
documented_resource path_file = codes "b"
documented_resource directory = codes "d"

documented_resource_lem :
    (r : DataLakeSasResource) → data_lake_sas_resource_to_string r ≡ documented_resource r
unfolding data_lake_sas_resource_to_string
documented_resource_lem file_system = refl
documented_resource_lem path_file = refl
documented_resource_lem directory = refl

Finds-resource :
    (m : List (Bytes × Bytes)) (r : DataLakeSasResource)
    → Finds m (codes "sr") (some (data_lake_sas_resource_to_string r))
    → Finds m (codes "sr") (some (documented_resource r))
Finds-resource m r f =
    subst (λ text. Finds m (codes "sr") (some text)) (documented_resource_lem r) f

-- The canonical name of what the token is for, from the names in the path of the request's URL: the file
-- system alone if 'sr' is "c".
unfoldable pub read_path : Bytes → Bytes → Bytes → Bytes → Bytes
read_path account_name file_system_name path sr =
    (codes "/blob/" ++ (account_name ++ (b'/' ∷ file_system_name)))
    ++ (if eqb sr (codes "c") then [] else b'/' ∷ path)

read_path_lem :
    (name : Bytes) (b : DataLakeSasBuilder)
    → read_path name b.file_system_name b.path (data_lake_sas_resource_to_string b.resource)
      ≡ file_system_of name b ++ delegated_path b.resource b.path
unfolding read_path data_lake_sas_resource_to_string
read_path_lem name b = go b.resource
  where
    go :
        (r : DataLakeSasResource)
        → read_path name b.file_system_name b.path (data_lake_sas_resource_to_string r)
          ≡ file_system_of name b ++ delegated_path r b.path
    go file_system = refl
    go path_file = refl
    go directory = refl

-- The text that a service checks the signature of: what was read, in the documented order.
unfoldable pub read_path_text : Bytes → Bytes → Bytes → List (Bytes × Bytes) → Bytes
read_path_text account_name file_system_name path m =
    documented_lines (
      value_at m (codes "sp")
      ∷ value_at m (codes "st")
      ∷ value_at m (codes "se")
      ∷ read_path account_name file_system_name path (value_at m (codes "sr"))
      ∷ value_at m (codes "skoid")
      ∷ value_at m (codes "sktid")
      ∷ value_at m (codes "skt")
      ∷ value_at m (codes "ske")
      ∷ value_at m (codes "sks")
      ∷ value_at m (codes "skv")
      ∷ value_at m (codes "saoid")
      ∷ value_at m (codes "suoid")
      ∷ value_at m (codes "scid")
      ∷ value_at m (codes "sip")
      ∷ value_at m (codes "spr")
      ∷ value_at m (codes "sv")
      ∷ value_at m (codes "sr")
      ∷ []
      ∷ value_at m (codes "rscc")
      ∷ value_at m (codes "rscd")
      ∷ value_at m (codes "rsce")
      ∷ value_at m (codes "rscl")
      ∷ [])
    ++ value_at m (codes "rsct")

-- All parts of a token that a delegated key signs.
unfoldable pub path_delegation_values :
    UserDelegationKey → DataLakeSasBuilder → Bytes → List (Bytes × Option Bytes)
path_delegation_values key b signature =
    values_before_permissions b
    ++ ((codes "sp", some b.permissions) ∷ values_after_permissions key b signature)

-- A depth in decimal.
abbrev pub documented_depth : Option ℕ → Option Bytes
documented_depth none = none
documented_depth (some depth) = some (to_decimal 10 depth)

Finds-depth :
    (m : List (Bytes × Bytes)) (depth : Option ℕ)
    → Finds m (codes "sdd") (depth_text depth)
    → Finds m (codes "sdd") (documented_depth depth)
Finds-depth m none f = f
Finds-depth m (some depth) f = f

-- What a reader has to find of a builder and of the key.
pub record IsPathToken (m : List (Bytes × Bytes)) (key : UserDelegationKey) (b : DataLakeSasBuilder)
    : Type 0 where
  pub version : Finds m (codes "sv") (some (codes "2020-02-10"))
  pub resource : Finds m (codes "sr") (some (documented_resource b.resource))
  pub starts_on : Finds m (codes "st") b.starts_on
  pub expires_on : Finds m (codes "se") (some b.expires_on)
  pub permissions : Finds m (codes "sp") (some b.permissions)
  pub ip_range : Finds m (codes "sip") b.ip_range
  pub protocol : Finds m (codes "spr") (some (documented_protocol b.protocol))
  pub key_parts : AreKeyParts m key
  pub preauthorized_agent_object_id :
      Finds m (codes "saoid") (given b.preauthorized_agent_object_id)
  pub agent_object_id : Finds m (codes "suoid") (given b.agent_object_id)
  pub correlation_id : Finds m (codes "scid") (given b.correlation_id)
  pub directory_depth : Finds m (codes "sdd") (documented_depth b.directory_depth)
  pub response_headers : AreHeaders m (headers b)

pub path_delegation_values-IsPathToken :
    (sign : Bytes → Bytes → Bytes) (key : UserDelegationKey) (account_name : Bytes)
    (b : DataLakeSasBuilder) (m : List (Bytes × Bytes))
    → FindsAll m (
        path_delegation_values key b
          (sign (path_delegation_string_to_sign key account_name b) key.value))
    → IsPathToken m key b
      × Finds m
          (codes "sig")
          (some (sign (read_path_text account_name b.file_system_name b.path m) key.value))
unfolding path_delegation_values values_before_permissions values_after_permissions
    path_delegation_string_to_sign path_delegation_lines path_last_lines read_path_text end_lines
    documented_lines
path_delegation_values-IsPathToken sign key account_name b m
      (
        sv,
        (
          sr,
          (
            st,
            (
              se,
              (
                sp,
                (
                  sip,
                  (
                    spr,
                    (
                      skoid,
                      (
                        sktid,
                        (
                          skt,
                          (
                            ske,
                            (
                              sks,
                              (
                                skv,
                                (
                                  saoid,
                                  (
                                    suoid,
                                    (scid, (sdd, (rscc, (rscd, (rsce, (rscl, (rsct, (sig, _)))))))),
                                  ),
                                ),
                              ),
                            ),
                          ),
                        ),
                      ),
                    ),
                  ),
                ),
              ),
            ),
          ),
        ),
      ) =
    (
      record {
        version = sv;
        resource = Finds-resource m b.resource sr;
        starts_on = st;
        expires_on = se;
        permissions = sp;
        ip_range = sip;
        protocol = Finds-protocol m b.protocol spr;
        key_parts = record {
          signed_object_id = skoid;
          signed_tenant_id = sktid;
          signed_starts_on = skt;
          signed_expires_on = ske;
          signed_service = sks;
          signed_version = skv;
        };
        preauthorized_agent_object_id = Finds-given m _ b.preauthorized_agent_object_id saoid;
        agent_object_id = Finds-given m _ b.agent_object_id suoid;
        correlation_id = Finds-given m _ b.correlation_id scid;
        directory_depth = Finds-depth m b.directory_depth sdd;
        response_headers = record {
          cache_control = Finds-given m _ b.cache_control rscc;
          content_disposition = Finds-given m _ b.content_disposition rscd;
          content_encoding = Finds-given m _ b.content_encoding rsce;
          content_language = Finds-given m _ b.content_language rscl;
          content_type = Finds-given m _ b.content_type rsct;
        };
      },
      rw
          (
            value_at-Finds m (codes "sv") (some (codes "2020-02-10")) sv,
            value_at-Finds m (codes "sr") (some (data_lake_sas_resource_to_string b.resource)) sr,
            value_at-Finds m (codes "st") b.starts_on st,
            value_at-Finds m (codes "se") (some b.expires_on) se,
            value_at-Finds m (codes "sp") (some b.permissions) sp,
            value_at-Finds m (codes "sip") b.ip_range sip,
            value_at-Finds m (codes "spr") (some (sas_protocol_to_string b.protocol)) spr,
            value_at-given m (codes "saoid") b.preauthorized_agent_object_id saoid,
            value_at-given m (codes "suoid") b.agent_object_id suoid,
            value_at-given m (codes "scid") b.correlation_id scid,
            value_at-Finds m (codes "skoid") (some key.signed_object_id) skoid,
            value_at-Finds m (codes "sktid") (some key.signed_tenant_id) sktid,
            value_at-Finds m (codes "skt") (some key.signed_starts_on) skt,
            value_at-Finds m (codes "ske") (some key.signed_expires_on) ske,
            value_at-Finds m (codes "sks") (some key.signed_service) sks,
            value_at-Finds m (codes "skv") (some key.signed_version) skv,
            value_at-given m (codes "rscc") b.cache_control rscc,
            value_at-given m (codes "rscd") b.content_disposition rscd,
            value_at-given m (codes "rsce") b.content_encoding rsce,
            value_at-given m (codes "rscl") b.content_language rscl,
            value_at-given m (codes "rsct") b.content_type rsct,
            read_path_lem account_name b,
          )
          sig,
    )
