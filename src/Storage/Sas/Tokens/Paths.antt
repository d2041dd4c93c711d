-- ===== src/Storage/Sas/Tokens/Paths.antt =====
-- The tokens of data lakes, as they are read.
use azure_sdk_for_cpp.Base.{
  ℕ, ◌≡◌, refl, sym, ap, ◌∙◌, not, List, [], ◌∷◌, ◌++◌, Option, none, some, Bytes, codes, Without,
  is_decimal, to_decimal, Without-to_decimal, arith,
}
use azure_sdk_for_cpp.Http.Url.{Url, append_query_parameters, append_query_parameter}
use azure_sdk_for_cpp.Storage.Credential.{StorageSharedKeyCredential}
use azure_sdk_for_cpp.Storage.Sas.{
  unless_empty, url_encode_query_parameter, append_values, empty_url,
}
use azure_sdk_for_cpp.Storage.Sas.Tokens.{
  IsValue, AreValues, Finds, FindsAll, have_keys, apart, append_values-FindsAll,
}
use azure_sdk_for_cpp.Storage.Sas.Tokens.PathLetters.{AreLetters, encode-AreLetters}
use azure_sdk_for_cpp.Storage.Sas.Tokens.Values.{
  IsOptionalValue, AreValues-cons, AreValues-unless_empty, HeadersFit, header_values,
  header_values-AreValues, KeyFits, key_values, key_values-AreValues, protocol-IsValue,
  version-IsValue, is_value, is_value-IsValue,
}
use azure_sdk_for_cpp.Storage.Sas.Blob.{UserDelegationKey}
use azure_sdk_for_cpp.Storage.Sas.DataLake.{
  DataLakeSasBuilder, DataLakeSasResource, file_system, path_file, directory,
  data_lake_sas_resource_to_string, path_string_to_sign, path_values, path_sas_token, depth_text,
  path_delegation_string_to_sign, values_before_permissions, values_after_permissions,
  path_delegation_sas_token,
}
use azure_sdk_for_cpp.Storage.Sas.Tokens.PathReader.{
  headers, path_delegation_values, read_path_text, IsPathToken, path_delegation_values-IsPathToken,
}

-- The parts that a caller gives.
pub record PathFits (b : DataLakeSasBuilder) : Type 0 where
  pub permissions_fit : IsValue b.permissions
  pub starts_on_fits : IsOptionalValue b.starts_on
  pub expires_on_fits : IsValue b.expires_on
  pub ip_range_fits : IsOptionalValue b.ip_range
  pub identifier_fits : IsValue b.identifier
  pub preauthorized_agent_object_id_fits : IsValue b.preauthorized_agent_object_id
  pub agent_object_id_fits : IsValue b.agent_object_id
  pub correlation_id_fits : IsValue b.correlation_id
  pub headers_fit : HeadersFit (headers b)

data_lake_resource-IsValue :
    (r : DataLakeSasResource) → IsValue (data_lake_sas_resource_to_string r)
unfolding data_lake_sas_resource_to_string is_value
data_lake_resource-IsValue file_system = is_value-IsValue (codes "c") refl
data_lake_resource-IsValue path_file = is_value-IsValue (codes "b") refl
data_lake_resource-IsValue directory = is_value-IsValue (codes "d") refl

path_values-AreValues :
    (b : DataLakeSasBuilder) (signature : Bytes)
    → PathFits b
    → IsValue signature
    → AreValues (path_values b signature)
unfolding path_values header_values
path_values-AreValues b signature f g = (
  version-IsValue,
  (
    protocol-IsValue b.protocol,
    AreValues-cons (codes "st") b.starts_on _ f.starts_on_fits (
        AreValues-unless_empty (codes "se") b.expires_on _ f.expires_on_fits (
          AreValues-cons (codes "sip") b.ip_range _ f.ip_range_fits (
            AreValues-unless_empty (codes "si") b.identifier _ f.identifier_fits (
              data_lake_resource-IsValue b.resource,
              AreValues-unless_empty (codes "sp") b.permissions _ f.permissions_fit
                  (g, header_values-AreValues (headers b) [] f.headers_fit tt),
            )))),
  ),
)

-- The same as for blobs, with the key of the account.
pub path_sas_token-FindsAll :
    (sign : Bytes → Bytes → Bytes) (credential : StorageSharedKeyCredential)
    (b : DataLakeSasBuilder) (u : Url)
    → ((text key : Bytes) → IsValue (sign text key))
    → PathFits b
    → u.encoded_query_parameters ≡ []
    → FindsAll
        (append_query_parameters u (path_sas_token sign credential b)).encoded_query_parameters
        (path_values b (sign (path_string_to_sign credential b) credential.account_key))
unfolding path_sas_token have_keys apart path_values
path_sas_token-FindsAll sign credential b u g f n =
    let signature = sign (path_string_to_sign credential b) credential.account_key in
    append_values-FindsAll (path_values b signature) u refl
      (path_values-AreValues b signature f (g _ _)) n

decimal-IsValue : (s : Bytes) → Without (λ c. not (is_decimal c)) s → IsValue s
decimal-IsValue [] w = (tt, tt)
decimal-IsValue (c ∷ s) w =
    let rest = decimal-IsValue s w.1 in
    ((ground (arith, w.0), rest.0), (ground (arith, w.0), rest.1))

depth-IsOptionalValue : (depth : Option ℕ) → IsOptionalValue (depth_text depth)
depth-IsOptionalValue none = tt
depth-IsOptionalValue (some depth) =
    decimal-IsValue (to_decimal 10 depth) (Without-to_decimal 10 depth)

append_values-append :
    (xs ys : List (Bytes × Option Bytes)) (u : Url)
    → append_values ys (append_values xs u) ≡ append_values (xs ++ ys) u
unfolding append_values
append_values-append [] ys u = refl
append_values-append ((k, none) ∷ xs) ys u = append_values-append xs ys u
append_values-append ((k, some v) ∷ xs) ys u =
    append_values-append xs ys (append_query_parameter u k (url_encode_query_parameter v))

-- Permissions that the encoding leaves as they are may as well be encoded.
encoded_permissions :
    (key : UserDelegationKey) (b : DataLakeSasBuilder) (signature : Bytes)
    → url_encode_query_parameter b.permissions ≡ b.permissions
    → append_values (values_after_permissions key b signature) (
        append_query_parameter
          (append_values (values_before_permissions b) empty_url)
          (codes "sp")
          b.permissions)
      ≡ append_values (path_delegation_values key b signature) empty_url
unfolding path_delegation_values append_values
encoded_permissions key b signature e =
    ap
      (λ t. append_values (values_after_permissions key b signature) (
        append_query_parameter (append_values (values_before_permissions b) empty_url) (codes "sp")
          t))
      (sym e)
    ∙ append_values-append (values_before_permissions b)
        ((codes "sp", some b.permissions) ∷ values_after_permissions key b signature) empty_url

-- The parameters that a blob's token does not have, before those of `values`.
agent_values : DataLakeSasBuilder → List (Bytes × Option Bytes) → List (Bytes × Option Bytes)
agent_values b values =
    (codes "saoid", unless_empty b.preauthorized_agent_object_id)
    ∷ (codes "suoid", unless_empty b.agent_object_id)
    ∷ (codes "scid", unless_empty b.correlation_id)
    ∷ (codes "sdd", depth_text b.directory_depth)
    ∷ values

agent_values-AreValues :
    (b : DataLakeSasBuilder) (values : List (Bytes × Option Bytes))
    → PathFits b
    → AreValues values
    → AreValues (agent_values b values)
unfolding agent_values
agent_values-AreValues b values f w =
    AreValues-unless_empty (codes "saoid") b.preauthorized_agent_object_id _
      f.preauthorized_agent_object_id_fits
      (AreValues-unless_empty (codes "suoid") b.agent_object_id _ f.agent_object_id_fits (
        AreValues-unless_empty (codes "scid") b.correlation_id _ f.correlation_id_fits (
          AreValues-cons (codes "sdd") (depth_text b.directory_depth) _
            (depth-IsOptionalValue b.directory_depth) w)))

path_delegation_values-AreValues :
    (key : UserDelegationKey) (b : DataLakeSasBuilder) (signature : Bytes)
    → KeyFits key
    → PathFits b
    → IsValue signature
    → AreValues (path_delegation_values key b signature)
unfolding path_delegation_values values_before_permissions values_after_permissions header_values
    key_values agent_values
path_delegation_values-AreValues key b signature k f g =
    let after =
      header_values-AreValues (headers b) ((codes "sig", some signature) ∷ []) f.headers_fit
        (g, tt) in
    let agents =
      agent_values-AreValues b (header_values (headers b) ((codes "sig", some signature) ∷ [])) f
        after in
    (
      version-IsValue,
      (
        data_lake_resource-IsValue b.resource,
        AreValues-cons (codes "st") b.starts_on _ f.starts_on_fits (
          f.expires_on_fits,
          (
            f.permissions_fit,
            AreValues-cons (codes "sip") b.ip_range _ f.ip_range_fits (
              protocol-IsValue b.protocol,
              key_values-AreValues key
                  (agent_values b (header_values (headers b) ((codes "sig", some signature) ∷ [])))
                  k agents,
            ),
          ),
        ),
      ),
    )

-- Whoever appends the token for a path of a data lake that a delegated key signs to a URL without
-- parameters finds the parts of the builder and of the key under the documented keys ('sv', 'sr', 'st',
-- 'se', 'sp', 'sip', 'spr', 'skoid', 'sktid', 'skt', 'ske', 'sks', 'skv', 'saoid', 'suoid', 'scid', 'sdd'
-- and those for the headers of the response), and under 'sig' the signature of the text that the names
-- in the request's URL and the values so read make in the documented order, which is how a service checks
-- it; a start, addresses or a depth that were not given, and agents, a correlation or headers that are
-- empty, have no parameter. The parts and what `sign` yields are to be bytes without an ampersand, and
-- the permissions, which are not encoded, lower-case letters.
pub path_delegation_sas_token-IsPathToken :
    (sign : Bytes → Bytes → Bytes) (key : UserDelegationKey) (account_name : Bytes)
    (b : DataLakeSasBuilder) (u : Url)
    → ((text value : Bytes) → IsValue (sign text value))
    → KeyFits key
    → PathFits b
    → AreLetters b.permissions
    → u.encoded_query_parameters ≡ []
    → let m =
        (append_query_parameters u
          (path_delegation_sas_token sign key account_name b)).encoded_query_parameters in
      IsPathToken m key b
      × Finds m
          (codes "sig")
          (some (sign (read_path_text account_name b.file_system_name b.path m) key.value))
unfolding path_delegation_sas_token path_delegation_values have_keys apart values_before_permissions
    values_after_permissions url_encode_query_parameter
path_delegation_sas_token-IsPathToken sign key account_name b u g k f l n =
    let signature = sign (path_delegation_string_to_sign key account_name b) key.value in
    path_delegation_values-IsPathToken sign key account_name b _ (
      rw (encoded_permissions key b signature (encode-AreLetters _ b.permissions l)) (
        append_values-FindsAll (path_delegation_values key b signature) u refl
          (path_delegation_values-AreValues key b signature k f (g _ _)) n))
