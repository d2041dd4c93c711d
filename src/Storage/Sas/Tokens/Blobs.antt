-- ===== src/Storage/Sas/Tokens/Blobs.antt =====
-- The tokens of blobs, as they are read.
use azure_sdk_for_cpp.Base.{◌≡◌, refl, [], ◌∷◌, some, Bytes, codes}
use azure_sdk_for_cpp.Http.Url.{Url, append_query_parameters}
use azure_sdk_for_cpp.Storage.Credential.{StorageSharedKeyCredential}
use azure_sdk_for_cpp.Storage.Sas.Blob.{
  BlobSasBuilder, UserDelegationKey, blob_string_to_sign, blob_values, blob_sas_token,
  delegation_string_to_sign, delegation_values, delegation_sas_token,
}
use azure_sdk_for_cpp.Storage.Sas.Tokens.{
  IsValue, AreValues, Finds, have_keys, apart, append_values-FindsAll,
}
use azure_sdk_for_cpp.Storage.Sas.Tokens.Values.{
  IsOptionalValue, AreValues-cons, protocol-IsValue, version-IsValue, resource-IsValue,
  AreValues-unless_empty, HeadersFit, header_values, header_values-AreValues, KeyFits, key_values,
  key_values-AreValues,
}
use azure_sdk_for_cpp.Storage.Sas.Tokens.BlobReader.{
  headers, request_for, read_blob_text, IsBlobToken, blob_values-IsBlobToken,
}
use azure_sdk_for_cpp.Storage.Sas.Tokens.DelegationReader.{
  read_delegation_text, IsDelegationToken, delegation_values-IsDelegationToken,
}

-- The parts that a caller gives.
pub record BlobFits (b : BlobSasBuilder) : Type 0 where
  pub permissions_fit : IsValue b.permissions
  pub starts_on_fits : IsOptionalValue b.starts_on
  pub expires_on_fits : IsValue b.expires_on
  pub ip_range_fits : IsOptionalValue b.ip_range
  pub identifier_fits : IsValue b.identifier
  pub headers_fit : HeadersFit (headers b)

blob_values-AreValues :
    (b : BlobSasBuilder) (signature : Bytes)
    → BlobFits b
    → IsValue signature
    → AreValues (blob_values b signature)
unfolding blob_values header_values
blob_values-AreValues b signature f g = (
  version-IsValue,
  (
    protocol-IsValue b.protocol,
    AreValues-cons (codes "st") b.starts_on _ f.starts_on_fits (
        AreValues-unless_empty (codes "se") b.expires_on _ f.expires_on_fits (
          AreValues-cons (codes "sip") b.ip_range _ f.ip_range_fits (
            AreValues-unless_empty (codes "si") b.identifier _ f.identifier_fits (
              resource-IsValue b.resource,
              AreValues-unless_empty (codes "sp") b.permissions _ f.permissions_fit
                  (g, header_values-AreValues (headers b) [] f.headers_fit tt),
            )))),
  ),
)

-- Whoever appends the token of a blob to a URL without parameters finds the parts of the builder under
-- the documented keys ('sv', 'spr', 'st', 'se', 'sip', 'si', 'sr', 'sp' and those for the headers of the
-- response), and under 'sig' the signature of the text that the request's names and the values so read
-- make in the documented order, which is how a service checks it; a part that was not given or, but for
-- the start and the addresses, is empty has no parameter. The parts and what `sign` yields are to be bytes
-- without an ampersand.
pub blob_sas_token-IsBlobToken :
    (sign : Bytes → Bytes → Bytes) (credential : StorageSharedKeyCredential) (b : BlobSasBuilder)
    (u : Url)
    → ((text key : Bytes) → IsValue (sign text key))
    → BlobFits b
    → u.encoded_query_parameters ≡ []
    → let m =
        (append_query_parameters u (blob_sas_token sign credential b)).encoded_query_parameters in
      IsBlobToken m b
      × Finds m (codes "sig") (
          some (
            sign (read_blob_text (request_for credential.account_name b) m) credential.account_key))
unfolding blob_sas_token have_keys apart blob_values
blob_sas_token-IsBlobToken sign credential b u g f n =
    let signature = sign (blob_string_to_sign credential b) credential.account_key in
    blob_values-IsBlobToken sign credential b _ (
      append_values-FindsAll (blob_values b signature) u refl
        (blob_values-AreValues b signature f (g _ _)) n)

delegation_values-AreValues :
    (key : UserDelegationKey) (b : BlobSasBuilder) (signature : Bytes)
    → KeyFits key
    → BlobFits b
    → IsValue signature
    → AreValues (delegation_values key b signature)
unfolding delegation_values header_values key_values
delegation_values-AreValues key b signature k f g =
    let after =
      header_values-AreValues (headers b) ((codes "sig", some signature) ∷ []) f.headers_fit
        (g, tt) in
    (
      version-IsValue,
      (
        resource-IsValue b.resource,
        AreValues-cons (codes "st") b.starts_on _ f.starts_on_fits (
          f.expires_on_fits,
          (
            f.permissions_fit,
            AreValues-cons (codes "sip") b.ip_range _ f.ip_range_fits (
              protocol-IsValue b.protocol,
              key_values-AreValues key
                  (header_values (headers b) ((codes "sig", some signature) ∷ [])) k after,
            ),
          ),
        ),
      ),
    )

-- Whoever appends the token of a blob that a delegated key signs to a URL without parameters finds the
-- parts of the builder and of the key under the documented keys ('sv', 'sr', 'st', 'se', 'sp', 'sip',
-- 'spr', 'skoid', 'sktid', 'skt', 'ske', 'sks', 'skv' and those for the headers of the response), and
-- under 'sig' the signature of the text that the request's names and the values so read make in the
-- documented order, which is how a service checks it; a start or addresses that were not given, and
-- headers that are empty, have no parameter. The parts and what `sign` yields are to be bytes without an
-- ampersand.
pub delegation_sas_token-IsDelegationToken :
    (sign : Bytes → Bytes → Bytes) (key : UserDelegationKey) (account_name : Bytes)
    (b : BlobSasBuilder) (u : Url)
    → ((text value : Bytes) → IsValue (sign text value))
    → KeyFits key
    → BlobFits b
    → u.encoded_query_parameters ≡ []
    → let m =
        (append_query_parameters u
          (delegation_sas_token sign key account_name b)).encoded_query_parameters in
      IsDelegationToken m key b
      × Finds m
          (codes "sig")
          (some (sign (read_delegation_text (request_for account_name b) m) key.value))
unfolding delegation_sas_token have_keys apart delegation_values
delegation_sas_token-IsDelegationToken sign key account_name b u g k f n =
    let signature = sign (delegation_string_to_sign key account_name b) key.value in
    delegation_values-IsDelegationToken sign key account_name b _ (
      append_values-FindsAll (delegation_values key b signature) u refl
        (delegation_values-AreValues key b signature k f (g _ _)) n)
