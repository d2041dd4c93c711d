-- ===== src/Storage/Sas/Tokens/BlobReader.antt =====
-- What a service reads of the token of a blob, and the text that it checks the signature of.
use azure_sdk_for_cpp.Base.{
  ◌≡◌, refl, subst, List, [], ◌∷◌, ◌++◌, some, Bytes, codes, eqb, if◌then◌else◌,
}
use azure_sdk_for_cpp.Storage.Credential.{StorageSharedKeyCredential}
use azure_sdk_for_cpp.Storage.Sas.{sas_protocol_to_string, end_lines}
use azure_sdk_for_cpp.Storage.Sas.Blob.{
  BlobSasBuilder, BlobSasResource, blob_container, blob, blob_snapshot, blob_version,
  blob_sas_resource_to_string, blob_string_to_sign, blob_lines, last_lines, canonical_name,
  snapshot_version, blob_values,
}
use azure_sdk_for_cpp.Storage.Sas.Tokens.{Finds, FindsAll}
use azure_sdk_for_cpp.Storage.Sas.Tokens.Reader.{
  value_at, value_at-Finds, given, Finds-given, value_at-given, documented_lines,
  documented_protocol, Finds-protocol, AreHeaders,
}
use azure_sdk_for_cpp.Storage.Sas.Tokens.Values.{HeaderTexts}

abbrev pub headers : BlobSasBuilder → HeaderTexts
headers b = record {
  cache_control = b.cache_control;
  content_disposition = b.content_disposition;
  content_encoding = b.content_encoding;
  content_language = b.content_language;
  content_type = b.content_type;
}

-- The documented text of the kinds of resources.
abbrev pub documented_resource : BlobSasResource → Bytes
documented_resource blob_container = codes "c"
documented_resource blob = codes "b"
documented_resource blob_snapshot = codes "bs"
documented_resource blob_version = codes "bv"

documented_resource_lem :
    (r : BlobSasResource) → blob_sas_resource_to_string r ≡ documented_resource r
unfolding blob_sas_resource_to_string
documented_resource_lem blob_container = refl
documented_resource_lem blob = refl
documented_resource_lem blob_snapshot = refl
documented_resource_lem blob_version = refl

-- What the request says of the blob: the names in the path of its URL, and the snapshot or the version
-- that it asks for.
pub record BlobRequest : Type 0 where
  pub account_name : Bytes
  pub container_name : Bytes
  pub blob_name : Bytes
  pub snapshot : Bytes
  pub version_id : Bytes

abbrev pub request_for : Bytes → BlobSasBuilder → BlobRequest
request_for name b = record {
  account_name = name;
  container_name = b.blob_container_name;
  blob_name = b.blob_name;
  snapshot = b.snapshot;
  version_id = b.blob_version_id;
}

-- The canonical name of what the token is for: the container alone if 'sr' is "c".
unfoldable pub read_name : BlobRequest → Bytes → Bytes
read_name q sr =
    let container = codes "/blob/" ++ (q.account_name ++ (b'/' ∷ q.container_name)) in
    if eqb sr (codes "c") then container else container ++ (b'/' ∷ q.blob_name)

-- The snapshot for "bs", the version for "bv", and otherwise nothing.
unfoldable pub read_snapshot : BlobRequest → Bytes → Bytes
read_snapshot q sr =
    if eqb sr (codes "bs") then q.snapshot else if eqb sr (codes "bv") then q.version_id else []

pub read_name-canonical_name :
    (name : Bytes) (b : BlobSasBuilder)
    → read_name (request_for name b) (blob_sas_resource_to_string b.resource)
      ≡ canonical_name name b
unfolding read_name canonical_name blob_sas_resource_to_string
read_name-canonical_name name b = go b.resource refl
  where
    go :
        (r : BlobSasResource)
        → b.resource ≡ r
        → read_name (request_for name b) (blob_sas_resource_to_string b.resource)
          ≡ canonical_name name b
    go blob_container e = rw e refl
    go blob e = rw e refl
    go blob_snapshot e = rw e refl
    go blob_version e = rw e refl

pub read_snapshot-snapshot_version :
    (name : Bytes) (b : BlobSasBuilder)
    → read_snapshot (request_for name b) (blob_sas_resource_to_string b.resource)
      ≡ snapshot_version b
unfolding read_snapshot snapshot_version blob_sas_resource_to_string
read_snapshot-snapshot_version name b = go b.resource refl
  where
    go :
        (r : BlobSasResource)
        → b.resource ≡ r
        → read_snapshot (request_for name b) (blob_sas_resource_to_string b.resource)
          ≡ snapshot_version b
    go blob_container e = rw e refl
    go blob e = rw e refl
    go blob_snapshot e = rw e refl
    go blob_version e = rw e refl

-- The lines that a service ends the text with, but for the last one.
unfoldable pub read_last_lines : BlobRequest → List (Bytes × Bytes) → List Bytes
read_last_lines q m =
    value_at m (codes "sip")
    ∷ value_at m (codes "spr")
    ∷ value_at m (codes "sv")
    ∷ value_at m (codes "sr")
    ∷ read_snapshot q (value_at m (codes "sr"))
    ∷ value_at m (codes "rscc")
    ∷ value_at m (codes "rscd")
    ∷ value_at m (codes "rsce")
    ∷ value_at m (codes "rscl")
    ∷ []

-- The text for a token that the account's key signs: what was read, in the documented order.
unfoldable pub read_blob_text : BlobRequest → List (Bytes × Bytes) → Bytes
read_blob_text q m =
    documented_lines (
      value_at m (codes "sp")
      ∷ value_at m (codes "st")
      ∷ value_at m (codes "se")
      ∷ read_name q (value_at m (codes "sr"))
      ∷ value_at m (codes "si")
      ∷ read_last_lines q m)
    ++ value_at m (codes "rsct")

-- What a reader has to find of a builder that the account's key signs for.
pub record IsBlobToken (m : List (Bytes × Bytes)) (b : BlobSasBuilder) : Type 0 where
  pub version : Finds m (codes "sv") (some (codes "2020-02-10"))
  pub protocol : Finds m (codes "spr") (some (documented_protocol b.protocol))
  pub starts_on : Finds m (codes "st") b.starts_on
  pub expires_on : Finds m (codes "se") (given b.expires_on)
  pub ip_range : Finds m (codes "sip") b.ip_range
  pub identifier : Finds m (codes "si") (given b.identifier)
  pub resource : Finds m (codes "sr") (some (documented_resource b.resource))
  pub permissions : Finds m (codes "sp") (given b.permissions)
  pub response_headers : AreHeaders m (headers b)

pub Finds-resource :
    (m : List (Bytes × Bytes)) (r : BlobSasResource)
    → Finds m (codes "sr") (some (blob_sas_resource_to_string r))
    → Finds m (codes "sr") (some (documented_resource r))
Finds-resource m r f =
    subst (λ text. Finds m (codes "sr") (some text)) (documented_resource_lem r) f

pub blob_values-IsBlobToken :
    (sign : Bytes → Bytes → Bytes) (credential : StorageSharedKeyCredential) (b : BlobSasBuilder)
    (m : List (Bytes × Bytes))
    → FindsAll m (blob_values b (sign (blob_string_to_sign credential b) credential.account_key))
    → IsBlobToken m b
      × Finds m (codes "sig") (
          some (
            sign (read_blob_text (request_for credential.account_name b) m) credential.account_key))
unfolding blob_values blob_string_to_sign blob_lines last_lines read_blob_text read_last_lines
    end_lines documented_lines
blob_values-IsBlobToken sign credential b m
      (
        sv,
        (
          spr,
          (st, (se, (sip, (si, (sr, (sp, (sig, (rscc, (rscd, (rsce, (rscl, (rsct, _)))))))))))),
        ),
      ) =
    (
      record {
        version = sv;
        protocol = Finds-protocol m b.protocol spr;
        starts_on = st;
        expires_on = Finds-given m _ b.expires_on se;
        ip_range = sip;
        identifier = Finds-given m _ b.identifier si;
        resource = Finds-resource m b.resource sr;
        permissions = Finds-given m _ b.permissions sp;
        response_headers = record {
          cache_control = Finds-given m _ b.cache_control rscc;
          content_disposition = Finds-given m _ b.content_disposition rscd;
          content_encoding = Finds-given m _ b.content_encoding rsce;
          content_language = Finds-given m _ b.content_language rscl;
          content_type = Finds-given m _ b.content_type rsct;
        };
      },
      rw
          (
            value_at-Finds m (codes "sv") (some (codes "2020-02-10")) sv,
            value_at-Finds m (codes "spr") (some (sas_protocol_to_string b.protocol)) spr,
            value_at-Finds m (codes "st") b.starts_on st,
            value_at-given m (codes "se") b.expires_on se,
            value_at-Finds m (codes "sip") b.ip_range sip,
            value_at-given m (codes "si") b.identifier si,
            value_at-Finds m (codes "sr") (some (blob_sas_resource_to_string b.resource)) sr,
            value_at-given m (codes "sp") b.permissions sp,
            value_at-given m (codes "rscc") b.cache_control rscc,
            value_at-given m (codes "rscd") b.content_disposition rscd,
            value_at-given m (codes "rsce") b.content_encoding rsce,
            value_at-given m (codes "rscl") b.content_language rscl,
            value_at-given m (codes "rsct") b.content_type rsct,
            read_name-canonical_name credential.account_name b,
            read_snapshot-snapshot_version credential.account_name b,
          )
          sig,
    )
