-- ===== src/Storage/Sas/Tokens/Accounts.antt =====
-- The token of an account, as it is read.
use azure_sdk_for_cpp.Base.{
  ◌++◌, ℕ, ◌%◌, ◌/◌, ◌==◌, if◌then◌else◌, subst, arith, ◌≡◌, refl, List, [], ◌∷◌, some, Bytes,
  codes,
}
use azure_sdk_for_cpp.Http.Url.{Url, append_query_parameters}
use azure_sdk_for_cpp.Storage.Credential.{StorageSharedKeyCredential}
use azure_sdk_for_cpp.Storage.Sas.{sas_protocol_to_string, letters, end_lines}
use azure_sdk_for_cpp.Storage.Sas.Letters.{has-power}
use azure_sdk_for_cpp.Storage.Sas.Account.{
  AccountSasBuilder, account_services, account_resource_types, account_lines,
  account_string_to_sign, account_values, account_sas_token,
}
use azure_sdk_for_cpp.Storage.Sas.Tokens.{
  IsValue, AreValues, Finds, FindsAll, have_keys, apart, append_values-FindsAll,
}
use azure_sdk_for_cpp.Storage.Sas.Tokens.Reader.{
  value_at, value_at-Finds, documented_protocol, Finds-protocol, documented_lines,
}
use azure_sdk_for_cpp.Storage.Sas.Tokens.Values.{
  IsOptionalValue, AreValues-cons, protocol-IsValue, version-IsValue, services-IsValue,
  resource_types-IsValue,
}

-- The parts that a caller gives.
abbrev pub AccountFits : AccountSasBuilder → Type 0
AccountFits b =
    IsValue b.permissions
    × (IsOptionalValue b.starts_on × (IsValue b.expires_on × IsOptionalValue b.ip_range))

account_values-AreValues :
    (b : AccountSasBuilder) (signature : Bytes)
    → AccountFits b
    → IsValue signature
    → AreValues (account_values b signature)
unfolding account_values
account_values-AreValues b signature (p, (s, (e, i))) g = (
  version-IsValue,
  (
    services-IsValue b.services,
    (
      resource_types-IsValue b.resource_types,
      (
        p,
        AreValues-cons (codes "st") b.starts_on _ s
            (e, AreValues-cons (codes "sip") b.ip_range _ i (protocol-IsValue b.protocol, (g, tt))),
      ),
    ),
  ),
)

-- The text that a service checks the signature of: the account's name and what it has read, each on a
-- line, in the documented order.
unfoldable pub read_account_text : Bytes → List (Bytes × Bytes) → Bytes
read_account_text account_name m = documented_lines (
    account_name
    ∷ value_at m (codes "sp")
    ∷ value_at m (codes "ss")
    ∷ value_at m (codes "srt")
    ∷ value_at m (codes "st")
    ∷ value_at m (codes "se")
    ∷ value_at m (codes "sip")
    ∷ value_at m (codes "spr")
    ∷ value_at m (codes "sv")
    ∷ [])

-- The letter of a flag that is set.
abbrev pub letter_if : ℕ → ℕ → Bytes
letter_if letter bit = if bit == 1 then letter ∷ [] else []

services_lem :
    (flags : ℕ)
    → letters account_services flags
      ≡ letter_if b'b' (flags % 2)
        ++ (letter_if b'q' (flags / 2 % 2) ++ letter_if b'f' (flags / 4 % 2))
unfolding letters
services_lem flags = ground (arith, has-power 0 flags, has-power 1 flags, has-power 2 flags)

resource_types_lem :
    (flags : ℕ)
    → letters account_resource_types flags
      ≡ letter_if b's' (flags % 2)
        ++ (letter_if b'c' (flags / 2 % 2) ++ letter_if b'o' (flags / 4 % 2))
unfolding letters
resource_types_lem flags = ground (arith, has-power 0 flags, has-power 1 flags, has-power 2 flags)

-- What a reader has to find of a builder.
pub record IsAccountToken (m : List (Bytes × Bytes)) (b : AccountSasBuilder) : Type 0 where
  pub version : Finds m (codes "sv") (some (codes "2020-02-10"))
  pub services : Finds m (codes "ss") (
      some (
        letter_if b'b' (b.services % 2)
        ++ (letter_if b'q' (b.services / 2 % 2) ++ letter_if b'f' (b.services / 4 % 2))))
  pub resource_types : Finds m (codes "srt") (
      some (
        letter_if b's' (b.resource_types % 2)
        ++ (letter_if b'c' (b.resource_types / 2 % 2)
            ++ letter_if b'o' (b.resource_types / 4 % 2))))
  pub permissions : Finds m (codes "sp") (some b.permissions)
  pub starts_on : Finds m (codes "st") b.starts_on
  pub expires_on : Finds m (codes "se") (some b.expires_on)
  pub ip_range : Finds m (codes "sip") b.ip_range
  pub protocol : Finds m (codes "spr") (some (documented_protocol b.protocol))

account_values-IsAccountToken :
    (sign : Bytes → Bytes → Bytes) (credential : StorageSharedKeyCredential) (b : AccountSasBuilder)
    (m : List (Bytes × Bytes))
    → FindsAll m
        (account_values b (sign (account_string_to_sign credential b) credential.account_key))
    → IsAccountToken m b
      × Finds m
          (codes "sig")
          (some (sign (read_account_text credential.account_name m) credential.account_key))
unfolding account_values account_string_to_sign account_lines read_account_text end_lines
    documented_lines
account_values-IsAccountToken sign credential b m
      (sv, (ss, (srt, (sp, (st, (se, (sip, (spr, (sig, _))))))))) =
    (
      record {
        version = sv;
        services = subst (λ text. Finds m (codes "ss") (some text)) (services_lem b.services) ss;
        resource_types =
            subst (λ text. Finds m (codes "srt") (some text)) (resource_types_lem b.resource_types)
              srt;
        permissions = sp;
        starts_on = st;
        expires_on = se;
        ip_range = sip;
        protocol = Finds-protocol m b.protocol spr;
      },
      rw
          (
            value_at-Finds m (codes "sv") (some (codes "2020-02-10")) sv,
            value_at-Finds m (codes "ss") (some (letters account_services b.services)) ss,
            value_at-Finds m (codes "srt") (some (letters account_resource_types b.resource_types))
                srt,
            value_at-Finds m (codes "sp") (some b.permissions) sp,
            value_at-Finds m (codes "st") b.starts_on st,
            value_at-Finds m (codes "se") (some b.expires_on) se,
            value_at-Finds m (codes "sip") b.ip_range sip,
            value_at-Finds m (codes "spr") (some (sas_protocol_to_string b.protocol)) spr,
          )
          sig,
    )

-- Whoever appends the token of an account to a URL without parameters finds the version under 'sv', the
-- letters of the services under 'ss' and of the kinds of resources under 'srt', the permissions under 'sp',
-- the start, the end and the addresses under 'st', 'se' and 'sip', the protocols under 'spr', and under
-- 'sig' the signature of the text that the account's name and the values so read make in the documented
-- order, which is how a service checks it; a part that was not given has no parameter. The parts and what
-- `sign` yields are to be bytes without an ampersand.
pub account_sas_token-IsAccountToken :
    (sign : Bytes → Bytes → Bytes) (credential : StorageSharedKeyCredential) (b : AccountSasBuilder)
    (u : Url)
    → ((text key : Bytes) → IsValue (sign text key))
    → AccountFits b
    → u.encoded_query_parameters ≡ []
    → let m =
        (append_query_parameters u
          (account_sas_token sign credential b)).encoded_query_parameters in
      IsAccountToken m b
      × Finds m
          (codes "sig")
          (some (sign (read_account_text credential.account_name m) credential.account_key))
unfolding account_sas_token have_keys apart account_values
account_sas_token-IsAccountToken sign credential b u g f n =
    let signature = sign (account_string_to_sign credential b) credential.account_key in
    account_values-IsAccountToken sign credential b _ (
      append_values-FindsAll (account_values b signature) u refl
        (account_values-AreValues b signature f (g _ _)) n)
