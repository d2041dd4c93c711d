-- ===== src/Storage/Sas/Tokens/Reader.antt =====
-- A service that reads the parameters of a token, each value decoded.
use azure_sdk_for_cpp.Base.{
  ◌≡◌, refl, ◌∙◌, ap, List, [], ◌∷◌, ◌++◌, subst, Option, none, some, Bytes, codes, Result, ok, err,
}
use azure_sdk_for_cpp.Dict.{find}
use azure_sdk_for_cpp.Http.Url.{UrlError, decode}
use azure_sdk_for_cpp.Storage.Sas.{
  SasProtocol, https_and_http, https_only, sas_protocol_to_string, unless_empty, value_or_empty,
}
use azure_sdk_for_cpp.Storage.Sas.Blob.{UserDelegationKey}
use azure_sdk_for_cpp.Storage.Sas.Tokens.{Finds}
use azure_sdk_for_cpp.Storage.Sas.Tokens.Values.{HeaderTexts}

abbrev pub ok_or_empty : Result UrlError Bytes → Bytes
ok_or_empty (ok v) = v
ok_or_empty (err e) = []

abbrev pub decoded : Option Bytes → Bytes
decoded none = []
decoded (some e) = ok_or_empty (decode e)

-- The value under a key; a parameter that is not there is read as the empty value.
unfoldable pub value_at : List (Bytes × Bytes) → Bytes → Bytes
value_at m k = decoded (find k m)

pub value_at-Finds :
    (m : List (Bytes × Bytes)) (k : Bytes) (o : Option Bytes)
    → Finds m k o
    → value_at m k ≡ value_or_empty o
unfolding value_at
value_at-Finds m k none f = ap decoded f
value_at-Finds m k (some v) (e, found, d) = ap decoded found ∙ ap ok_or_empty d

-- A text that is left out if it is empty.
abbrev pub given : Bytes → Option Bytes
given [] = none
given (c ∷ v) = some (c ∷ v)

pub Finds-given :
    (m : List (Bytes × Bytes)) (k v : Bytes) → Finds m k (unless_empty v) → Finds m k (given v)
unfolding unless_empty
Finds-given m k [] f = f
Finds-given m k (c ∷ v) f = f

pub value_at-given :
    (m : List (Bytes × Bytes)) (k v : Bytes) → Finds m k (unless_empty v) → value_at m k ≡ v
unfolding unless_empty
value_at-given m k [] f = value_at-Finds m k none f
value_at-given m k (c ∷ v) f = value_at-Finds m k (some (c ∷ v)) f

-- Each line and its end, for the texts that the documentation lays out.
unfoldable pub documented_lines : List Bytes → Bytes
documented_lines [] = []
documented_lines (line ∷ lines) = line ++ (b'\n' ∷ documented_lines lines)

-- The documented text of the protocols.
abbrev pub documented_protocol : SasProtocol → Bytes
documented_protocol https_and_http = codes "https,http"
documented_protocol https_only = codes "https"

pub documented_protocol_lem : (p : SasProtocol) → sas_protocol_to_string p ≡ documented_protocol p
unfolding sas_protocol_to_string
documented_protocol_lem https_and_http = refl
documented_protocol_lem https_only = refl

pub Finds-protocol :
    (m : List (Bytes × Bytes)) (p : SasProtocol)
    → Finds m (codes "spr") (some (sas_protocol_to_string p))
    → Finds m (codes "spr") (some (documented_protocol p))
Finds-protocol m p f =
    subst (λ text. Finds m (codes "spr") (some text)) (documented_protocol_lem p) f

-- The parameters for the headers of the response.
pub record AreHeaders (m : List (Bytes × Bytes)) (h : HeaderTexts) : Type 0 where
  pub cache_control : Finds m (codes "rscc") (given h.cache_control)
  pub content_disposition : Finds m (codes "rscd") (given h.content_disposition)
  pub content_encoding : Finds m (codes "rsce") (given h.content_encoding)
  pub content_language : Finds m (codes "rscl") (given h.content_language)
  pub content_type : Finds m (codes "rsct") (given h.content_type)

-- The parameters for the parts of a delegated key.
pub record AreKeyParts (m : List (Bytes × Bytes)) (key : UserDelegationKey) : Type 0 where
  pub signed_object_id : Finds m (codes "skoid") (some key.signed_object_id)
  pub signed_tenant_id : Finds m (codes "sktid") (some key.signed_tenant_id)
  pub signed_starts_on : Finds m (codes "skt") (some key.signed_starts_on)
  pub signed_expires_on : Finds m (codes "ske") (some key.signed_expires_on)
  pub signed_service : Finds m (codes "sks") (some key.signed_service)
  pub signed_version : Finds m (codes "skv") (some key.signed_version)
