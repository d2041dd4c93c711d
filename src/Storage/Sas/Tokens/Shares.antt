-- ===== src/Storage/Sas/Tokens/Shares.antt =====
-- The tokens of shares, as they are read.
use azure_sdk_for_cpp.Base.{◌≡◌, refl, [], Bytes, codes}
use azure_sdk_for_cpp.Http.Url.{Url, append_query_parameters}
use azure_sdk_for_cpp.Storage.Credential.{StorageSharedKeyCredential}
use azure_sdk_for_cpp.Storage.Sas.Tokens.{
  IsValue, AreValues, FindsAll, have_keys, apart, append_values-FindsAll,
}
use azure_sdk_for_cpp.Storage.Sas.Tokens.Values.{
  IsOptionalValue, AreValues-cons, AreValues-unless_empty, HeaderTexts, HeadersFit, header_values,
  header_values-AreValues, protocol-IsValue, version-IsValue, is_value, is_value-IsValue,
}
use azure_sdk_for_cpp.Storage.Sas.Share.{
  ShareSasBuilder, ShareSasResource, share, share_file, share_sas_resource_to_string,
  share_string_to_sign, share_values, share_sas_token,
}

abbrev headers : ShareSasBuilder → HeaderTexts
headers b = record {
  cache_control = b.cache_control;
  content_disposition = b.content_disposition;
  content_encoding = b.content_encoding;
  content_language = b.content_language;
  content_type = b.content_type;
}

-- The parts that a caller gives.
pub record ShareFits (b : ShareSasBuilder) : Type 0 where
  pub permissions_fit : IsValue b.permissions
  pub starts_on_fits : IsOptionalValue b.starts_on
  pub expires_on_fits : IsValue b.expires_on
  pub ip_range_fits : IsOptionalValue b.ip_range
  pub identifier_fits : IsValue b.identifier
  pub headers_fit : HeadersFit (headers b)

share_resource-IsValue : (r : ShareSasResource) → IsValue (share_sas_resource_to_string r)
unfolding share_sas_resource_to_string is_value
share_resource-IsValue share = is_value-IsValue (codes "s") refl
share_resource-IsValue share_file = is_value-IsValue (codes "f") refl

share_values-AreValues :
    (b : ShareSasBuilder) (signature : Bytes)
    → ShareFits b
    → IsValue signature
    → AreValues (share_values b signature)
unfolding share_values header_values
share_values-AreValues b signature f g = (
  version-IsValue,
  (
    protocol-IsValue b.protocol,
    AreValues-cons (codes "st") b.starts_on _ f.starts_on_fits (
        AreValues-unless_empty (codes "se") b.expires_on _ f.expires_on_fits (
          AreValues-cons (codes "sip") b.ip_range _ f.ip_range_fits (
            AreValues-unless_empty (codes "si") b.identifier _ f.identifier_fits (
              share_resource-IsValue b.resource,
              AreValues-unless_empty (codes "sp") b.permissions _ f.permissions_fit
                  (g, header_values-AreValues (headers b) [] f.headers_fit tt),
            )))),
  ),
)

-- Whoever appends the token of a share to a URL without parameters has, under each key, the part of
-- the builder, and nothing for a part that was not given or is empty, as long as no part has an
-- ampersand and the signatures are those bytes that base 64 uses.
pub share_sas_token-FindsAll :
    (sign : Bytes → Bytes → Bytes) (credential : StorageSharedKeyCredential) (b : ShareSasBuilder)
    (u : Url)
    → ((text key : Bytes) → IsValue (sign text key))
    → ShareFits b
    → u.encoded_query_parameters ≡ []
    → FindsAll
        (append_query_parameters u (share_sas_token sign credential b)).encoded_query_parameters
        (share_values b (sign (share_string_to_sign credential b) credential.account_key))
unfolding share_sas_token have_keys apart share_values
share_sas_token-FindsAll sign credential b u g f n =
    let signature = sign (share_string_to_sign credential b) credential.account_key in
    append_values-FindsAll (share_values b signature) u refl
      (share_values-AreValues b signature f (g _ _)) n
