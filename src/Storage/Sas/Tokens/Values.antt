-- ===== src/Storage/Sas/Tokens/Values.antt =====
-- Texts that may stand in a token.
use azure_sdk_for_cpp.Base.{
  ℕ, ◌≡◌, refl, Bool, true, ◌&&◌, ltb, not, List, [], ◌∷◌, Option, none, some, Bytes, codes,
  Bool-cases, inl, inr, arith,
}
use azure_sdk_for_cpp.Http.Url.Queries.{is_ampersand}
use azure_sdk_for_cpp.Storage.Sas.{
  SasProtocol, https_and_http, https_only, sas_protocol_to_string, default_sas_version, has,
  letters, unless_empty,
}
use azure_sdk_for_cpp.Storage.Sas.Account.{account_services, account_resource_types}
use azure_sdk_for_cpp.Storage.Sas.Blob.{
  BlobSasResource, blob_container, blob, blob_snapshot, blob_version, blob_sas_resource_to_string,
  UserDelegationKey,
}
use azure_sdk_for_cpp.Storage.Sas.Tokens.{IsValue, AreValues}

unfoldable pub is_value : Bytes → Bool
is_value [] = true
is_value (c ∷ s) = ltb c 256 && (not (is_ampersand c) && is_value s)

pub is_value-IsValue : (s : Bytes) → is_value s ≡ true → IsValue s
unfolding is_value
is_value-IsValue [] e = (tt, tt)
is_value-IsValue (c ∷ s) e =
    let rest = is_value-IsValue s (ground arith) in ((ground arith, rest.0), (ground arith, rest.1))

are_value_letters : List (ℕ × ℕ) → Bool
are_value_letters [] = true
are_value_letters ((flag, letter) ∷ tests) =
    ltb letter 256 && (not (is_ampersand letter) && are_value_letters tests)

letters-is_value :
    (tests : List (ℕ × ℕ)) (flags : ℕ)
    → are_value_letters tests ≡ true
    → is_value (letters tests flags) ≡ true
unfolding are_value_letters letters is_value
letters-is_value [] flags e = refl
letters-is_value ((flag, letter) ∷ tests) flags e = elim (Bool-cases (has flags flag)) [
  | inl f ↦ rw f (ground (arith, letters-is_value tests flags))
  | inr f ↦ rw f (letters-is_value tests flags (ground arith))
]

pub protocol-IsValue : (p : SasProtocol) → IsValue (sas_protocol_to_string p)
unfolding sas_protocol_to_string is_value
protocol-IsValue https_and_http = is_value-IsValue (codes "https,http") refl
protocol-IsValue https_only = is_value-IsValue (codes "https") refl

pub version-IsValue : IsValue default_sas_version
unfolding is_value
version-IsValue = is_value-IsValue default_sas_version refl

pub services-IsValue : (flags : ℕ) → IsValue (letters account_services flags)
unfolding are_value_letters
services-IsValue flags = is_value-IsValue _ (letters-is_value account_services flags refl)

pub resource_types-IsValue : (flags : ℕ) → IsValue (letters account_resource_types flags)
unfolding are_value_letters
resource_types-IsValue flags =
    is_value-IsValue _ (letters-is_value account_resource_types flags refl)

pub resource-IsValue : (r : BlobSasResource) → IsValue (blob_sas_resource_to_string r)
unfolding blob_sas_resource_to_string is_value
resource-IsValue blob_container = is_value-IsValue (codes "c") refl
resource-IsValue blob = is_value-IsValue (codes "b") refl
resource-IsValue blob_snapshot = is_value-IsValue (codes "bs") refl
resource-IsValue blob_version = is_value-IsValue (codes "bv") refl

abbrev pub IsOptionalValue : Option Bytes → Type 0
IsOptionalValue none = Unit {0}
IsOptionalValue (some v) = IsValue v

pub AreValues-cons :
    (k : Bytes) (o : Option Bytes) (values : List (Bytes × Option Bytes))
    → IsOptionalValue o
    → AreValues values
    → AreValues ((k, o) ∷ values)
AreValues-cons k none values p w = w
AreValues-cons k (some v) values p w = (p, w)

pub unless_empty-IsOptionalValue : (v : Bytes) → IsValue v → IsOptionalValue (unless_empty v)
unfolding unless_empty
unless_empty-IsOptionalValue [] p = tt
unless_empty-IsOptionalValue (c ∷ v) p = p

-- A value that is left out if it is empty.
pub AreValues-unless_empty :
    (k v : Bytes) (values : List (Bytes × Option Bytes))
    → IsValue v
    → AreValues values
    → AreValues ((k, unless_empty v) ∷ values)
AreValues-unless_empty k v values p w =
    AreValues-cons k (unless_empty v) values (unless_empty-IsOptionalValue v p) w

-- The parts for the headers of the response.
pub record HeaderTexts : Type 0 where
  pub cache_control : Bytes
  pub content_disposition : Bytes
  pub content_encoding : Bytes
  pub content_language : Bytes
  pub content_type : Bytes

pub record HeadersFit (h : HeaderTexts) : Type 0 where
  pub cache_control_fits : IsValue h.cache_control
  pub content_disposition_fits : IsValue h.content_disposition
  pub content_encoding_fits : IsValue h.content_encoding
  pub content_language_fits : IsValue h.content_language
  pub content_type_fits : IsValue h.content_type

-- Their parameters, before those of `values`.
unfoldable pub header_values :
    HeaderTexts → List (Bytes × Option Bytes) → List (Bytes × Option Bytes)
header_values h values =
    (codes "rscc", unless_empty h.cache_control)
    ∷ (codes "rscd", unless_empty h.content_disposition)
    ∷ (codes "rsce", unless_empty h.content_encoding)
    ∷ (codes "rscl", unless_empty h.content_language)
    ∷ (codes "rsct", unless_empty h.content_type)
    ∷ values

pub header_values-AreValues :
    (h : HeaderTexts) (values : List (Bytes × Option Bytes))
    → HeadersFit h
    → AreValues values
    → AreValues (header_values h values)
unfolding header_values
header_values-AreValues h values f w =
    AreValues-unless_empty (codes "rscc") h.cache_control _ f.cache_control_fits (
      AreValues-unless_empty (codes "rscd") h.content_disposition _ f.content_disposition_fits (
        AreValues-unless_empty (codes "rsce") h.content_encoding _ f.content_encoding_fits (
          AreValues-unless_empty (codes "rscl") h.content_language _ f.content_language_fits
            (AreValues-unless_empty (codes "rsct") h.content_type _ f.content_type_fits w))))

-- The parts of a delegated key that stand in a token.
pub record KeyFits (key : UserDelegationKey) : Type 0 where
  pub signed_object_id_fits : IsValue key.signed_object_id
  pub signed_tenant_id_fits : IsValue key.signed_tenant_id
  pub signed_starts_on_fits : IsValue key.signed_starts_on
  pub signed_expires_on_fits : IsValue key.signed_expires_on
  pub signed_service_fits : IsValue key.signed_service
  pub signed_version_fits : IsValue key.signed_version

-- The parameters for the parts of the key, before those of `values`.
unfoldable pub key_values :
    UserDelegationKey → List (Bytes × Option Bytes) → List (Bytes × Option Bytes)
key_values key values =
    (codes "skoid", some key.signed_object_id)
    ∷ (codes "sktid", some key.signed_tenant_id)
    ∷ (codes "skt", some key.signed_starts_on)
    ∷ (codes "ske", some key.signed_expires_on)
    ∷ (codes "sks", some key.signed_service)
    ∷ (codes "skv", some key.signed_version)
    ∷ values

pub key_values-AreValues :
    (key : UserDelegationKey) (values : List (Bytes × Option Bytes))
    → KeyFits key
    → AreValues values
    → AreValues (key_values key values)
unfolding key_values
key_values-AreValues key values k w = (
  k.signed_object_id_fits,
  (
    k.signed_tenant_id_fits,
    (
      k.signed_starts_on_fits,
      (k.signed_expires_on_fits, (k.signed_service_fits, (k.signed_version_fits, w))),
    ),
  ),
)
