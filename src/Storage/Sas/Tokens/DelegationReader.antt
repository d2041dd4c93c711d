-- ===== src/Storage/Sas/Tokens/DelegationReader.antt =====
-- What a service reads of the token of a blob that a delegated key signs.
use azure_sdk_for_cpp.Base.{List, [], ◌∷◌, ◌++◌, some, Bytes, codes}
use azure_sdk_for_cpp.Storage.Sas.{sas_protocol_to_string, end_lines}
use azure_sdk_for_cpp.Storage.Sas.Blob.{
  BlobSasBuilder, blob_sas_resource_to_string, UserDelegationKey, last_lines,
  delegation_string_to_sign, delegation_lines, delegation_values,
}
use azure_sdk_for_cpp.Storage.Sas.Tokens.{Finds, FindsAll}
use azure_sdk_for_cpp.Storage.Sas.Tokens.Reader.{
  value_at, value_at-Finds, Finds-given, value_at-given, documented_lines, documented_protocol,
  Finds-protocol, AreHeaders, AreKeyParts,
}
use azure_sdk_for_cpp.Storage.Sas.Tokens.BlobReader.{
  headers, documented_resource, BlobRequest, request_for, read_name, read_last_lines,
  Finds-resource, read_name-canonical_name, read_snapshot-snapshot_version,
}

-- The text for a token that a delegated key signs; the parts for agents and the correlation are empty.
unfoldable pub read_delegation_text : BlobRequest → List (Bytes × Bytes) → Bytes
read_delegation_text q m =
    documented_lines (
      value_at m (codes "sp")
      ∷ value_at m (codes "st")
      ∷ value_at m (codes "se")
      ∷ read_name q (value_at m (codes "sr"))
      ∷ value_at m (codes "skoid")
      ∷ value_at m (codes "sktid")
      ∷ value_at m (codes "skt")
      ∷ value_at m (codes "ske")
      ∷ value_at m (codes "sks")
      ∷ value_at m (codes "skv")
      ∷ []
      ∷ []
      ∷ []
      ∷ read_last_lines q m)
    ++ value_at m (codes "rsct")

-- What a reader has to find of a builder and of the key.
pub record IsDelegationToken (m : List (Bytes × Bytes)) (key : UserDelegationKey)
    (b : BlobSasBuilder) : Type 0 where
  pub version : Finds m (codes "sv") (some (codes "2020-02-10"))
  pub resource : Finds m (codes "sr") (some (documented_resource b.resource))
  pub starts_on : Finds m (codes "st") b.starts_on
  pub expires_on : Finds m (codes "se") (some b.expires_on)
  pub permissions : Finds m (codes "sp") (some b.permissions)
  pub ip_range : Finds m (codes "sip") b.ip_range
  pub protocol : Finds m (codes "spr") (some (documented_protocol b.protocol))
  pub key_parts : AreKeyParts m key
  pub response_headers : AreHeaders m (headers b)

pub delegation_values-IsDelegationToken :
    (sign : Bytes → Bytes → Bytes) (key : UserDelegationKey) (account_name : Bytes)
    (b : BlobSasBuilder) (m : List (Bytes × Bytes))
    → FindsAll m
        (delegation_values key b (sign (delegation_string_to_sign key account_name b) key.value))
    → IsDelegationToken m key b
      × Finds m
          (codes "sig")
          (some (sign (read_delegation_text (request_for account_name b) m) key.value))
unfolding delegation_values delegation_string_to_sign delegation_lines last_lines
    read_delegation_text read_last_lines end_lines documented_lines
delegation_values-IsDelegationToken sign key account_name b m
      (
        sv,
        (
          sr,
          (
            st,
            (
              se,
              (
                sp,
                (
                  sip,
                  (
                    spr,
                    (
                      skoid,
                      (
                        sktid,
                        (
                          skt,
                          (ske, (sks, (skv, (rscc, (rscd, (rsce, (rscl, (rsct, (sig, _))))))))),
                        ),
                      ),
                    ),
                  ),
                ),
              ),
            ),
          ),
        ),
      ) =
    (
      record {
        version = sv;
        resource = Finds-resource m b.resource sr;
        starts_on = st;
        expires_on = se;
        permissions = sp;
        ip_range = sip;
        protocol = Finds-protocol m b.protocol spr;
        key_parts = record {
          signed_object_id = skoid;
          signed_tenant_id = sktid;
          signed_starts_on = skt;
          signed_expires_on = ske;
          signed_service = sks;
          signed_version = skv;
        };
        response_headers = record {
          cache_control = Finds-given m _ b.cache_control rscc;
          content_disposition = Finds-given m _ b.content_disposition rscd;
          content_encoding = Finds-given m _ b.content_encoding rsce;
          content_language = Finds-given m _ b.content_language rscl;
          content_type = Finds-given m _ b.content_type rsct;
        };
      },
      rw
          (
            value_at-Finds m (codes "sv") (some (codes "2020-02-10")) sv,
            value_at-Finds m (codes "sr") (some (blob_sas_resource_to_string b.resource)) sr,
            value_at-Finds m (codes "st") b.starts_on st,
            value_at-Finds m (codes "se") (some b.expires_on) se,
            value_at-Finds m (codes "sp") (some b.permissions) sp,
            value_at-Finds m (codes "sip") b.ip_range sip,
            value_at-Finds m (codes "spr") (some (sas_protocol_to_string b.protocol)) spr,
            value_at-Finds m (codes "skoid") (some key.signed_object_id) skoid,
            value_at-Finds m (codes "sktid") (some key.signed_tenant_id) sktid,
            value_at-Finds m (codes "skt") (some key.signed_starts_on) skt,
            value_at-Finds m (codes "ske") (some key.signed_expires_on) ske,
            value_at-Finds m (codes "sks") (some key.signed_service) sks,
            value_at-Finds m (codes "skv") (some key.signed_version) skv,
            value_at-given m (codes "rscc") b.cache_control rscc,
            value_at-given m (codes "rscd") b.content_disposition rscd,
            value_at-given m (codes "rsce") b.content_encoding rsce,
            value_at-given m (codes "rscl") b.content_language rscl,
            value_at-given m (codes "rsct") b.content_type rsct,
            read_name-canonical_name account_name b,
            read_snapshot-snapshot_version account_name b,
          )
          sig,
    )
