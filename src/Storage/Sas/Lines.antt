-- ===== src/Storage/Sas/Lines.antt =====
-- What the text that is signed says of its parts.
use mathlib.Core.List.{append_assoc}
use azure_sdk_for_cpp.Base.{
  ℕ, ◌≡◌, refl, sym, ap, ap₂, ◌∙◌, List, [], ◌∷◌, ◌++◌, ◌==◌, length, drop, Bytes, until, from,
  Without, until-append, from-append, Bool, arith, ◌%◌, true, not, ◌&&◌, Bool-cases, inl, inr,
  none_passes-Without, codes, zero, suc,
}
use azure_sdk_for_cpp.Storage.Credential.{StorageSharedKeyCredential}
use azure_sdk_for_cpp.Storage.Sas.{
  SasProtocol, https_and_http, https_only, sas_protocol_to_string, default_sas_version, has,
  letters, value_or_empty, end_lines,
}
use azure_sdk_for_cpp.Storage.Sas.Letters.{flags_of, flags_of-services, flags_of-resource_types}
use azure_sdk_for_cpp.Storage.Sas.Account.{
  AccountSasBuilder, account_services, account_resource_types, account_lines,
  account_string_to_sign,
}

abbrev pub is_newline : ℕ → Bool
is_newline c = c == b'\n'

abbrev pub AreLines : List Bytes → Type 0
AreLines [] = Unit {0}
AreLines (line ∷ lines) = Without is_newline line × AreLines lines

first_line : (x s t : Bytes) → Without is_newline x → until is_newline ((x ++ (b'\n' ∷ s)) ++ t) ≡ x
first_line x s t w =
    rw (append_assoc x (b'\n' ∷ s) t) (until-append is_newline x (b'\n' ∷ (s ++ t)) w refl)

other_lines :
    (x s t : Bytes)
    → Without is_newline x
    → drop 1 (from is_newline ((x ++ (b'\n' ∷ s)) ++ t)) ≡ s ++ t
other_lines x s t w =
    rw (append_assoc x (b'\n' ∷ s) t)
      (ap (drop 1) (from-append is_newline x (b'\n' ∷ (s ++ t)) w refl))

-- Lines without a newline can be told apart.
end_lines-cancel :
    (xs ys : List Bytes) (t u : Bytes)
    → length xs ≡ length ys
    → AreLines xs
    → AreLines ys
    → end_lines xs ++ t ≡ end_lines ys ++ u
    → (xs ≡ ys) × (t ≡ u)
unfolding end_lines
end_lines-cancel [] [] t u n h k e = (refl, e)
end_lines-cancel [] (y ∷ ys) t u n h k e = absurd (omega arith)
end_lines-cancel (x ∷ xs) [] t u n h k e = absurd (omega arith)
end_lines-cancel (x ∷ xs) (y ∷ ys) t u n h k e =
    let same : x ≡ y =
      sym (first_line x (end_lines xs) t h.0)
      ∙ ap (until is_newline) e
      ∙ first_line y (end_lines ys) u k.0 in
    let rest : end_lines xs ++ t ≡ end_lines ys ++ u =
      sym (other_lines x (end_lines xs) t h.0)
      ∙ ap (λ s. drop 1 (from is_newline s)) e
      ∙ other_lines y (end_lines ys) u k.0 in
    let (p, q) = end_lines-cancel xs ys t u (omega arith) h.1 k.1 rest in (ap₂ (◌∷◌) same p, q)

nth : ℕ → List Bytes → Bytes
nth zero [] = []
nth zero (x ∷ xs) = x
nth (suc n) [] = []
nth (suc n) (x ∷ xs) = nth n xs

account_string_to_sign-lines :
    (credential other : StorageSharedKeyCredential) (b c : AccountSasBuilder)
    → AreLines (account_lines credential b)
    → AreLines (account_lines other c)
    → account_string_to_sign credential b ≡ account_string_to_sign other c
    → account_lines credential b ≡ account_lines other c
unfolding account_string_to_sign account_lines
account_string_to_sign-lines credential other b c h k e =
    (end_lines-cancel (account_lines credential b) (account_lines other c) [] [] refl h k
      (ap (λ s. s ++ []) e)).0

are_not_newlines : List (ℕ × ℕ) → Bool
are_not_newlines [] = true
are_not_newlines ((flag, letter) ∷ tests) = not (is_newline letter) && are_not_newlines tests

letters-Without :
    (tests : List (ℕ × ℕ)) (flags : ℕ)
    → are_not_newlines tests ≡ true
    → Without is_newline (letters tests flags)
unfolding are_not_newlines letters
letters-Without [] flags e = tt
letters-Without ((flag, letter) ∷ tests) flags e = elim (Bool-cases (has flags flag)) [
  | inl f ↦ rw f (ground arith, letters-Without tests flags (ground arith))
  | inr f ↦ rw f (letters-Without tests flags (ground arith))
]

services-Without : (flags : ℕ) → Without is_newline (letters account_services flags)
unfolding are_not_newlines
services-Without flags = letters-Without account_services flags refl

resource_types-Without : (flags : ℕ) → Without is_newline (letters account_resource_types flags)
unfolding are_not_newlines
resource_types-Without flags = letters-Without account_resource_types flags refl

protocol-Without : (p : SasProtocol) → Without is_newline (sas_protocol_to_string p)
unfolding sas_protocol_to_string
protocol-Without https_and_http = none_passes-Without is_newline (codes "https,http") refl
protocol-Without https_only = none_passes-Without is_newline (codes "https") refl

version-Without : Without is_newline default_sas_version
version-Without = none_passes-Without is_newline default_sas_version refl

protocol_injective :
    (p q : SasProtocol) → sas_protocol_to_string p ≡ sas_protocol_to_string q → p ≡ q
unfolding sas_protocol_to_string
protocol_injective https_and_http https_and_http e = refl
protocol_injective https_and_http https_only e = absurd cc
protocol_injective https_only https_and_http e = absurd cc
protocol_injective https_only https_only e = refl

-- The parts that a caller gives.
pub record HaveNoNewline (credential : StorageSharedKeyCredential) (b : AccountSasBuilder)
    : Type 0 where
  pub account_name_line : Without is_newline credential.account_name
  pub permissions_line : Without is_newline b.permissions
  pub starts_on_line : Without is_newline (value_or_empty b.starts_on)
  pub expires_on_line : Without is_newline b.expires_on
  pub ip_range_line : Without is_newline (value_or_empty b.ip_range)

account_lines-AreLines :
    (credential : StorageSharedKeyCredential) (b : AccountSasBuilder)
    → HaveNoNewline credential b
    → AreLines (account_lines credential b)
unfolding account_lines
account_lines-AreLines credential b h = (
  h.account_name_line,
  (
    h.permissions_line,
    (
      services-Without b.services,
      (
        resource_types-Without b.resource_types,
        (
          h.starts_on_line,
          (
            h.expires_on_line,
            (h.ip_range_line, (protocol-Without b.protocol, (version-Without, tt))),
          ),
        ),
      ),
    ),
  ),
)

-- Two texts that are signed for accounts are the same only if the names of the accounts, the
-- permissions, the flags of the services and of the kinds of resources (the low three bits, which have
-- letters), the start, the end, the addresses and the protocols are the same, where a start or an
-- address that is not given counts as empty, as long as no text among the parts has a newline.
pub account_string_to_sign_injective :
    (credential other : StorageSharedKeyCredential) (b c : AccountSasBuilder)
    → HaveNoNewline credential b
    → HaveNoNewline other c
    → account_string_to_sign credential b ≡ account_string_to_sign other c
    → (credential.account_name ≡ other.account_name)
      × (b.permissions ≡ c.permissions)
      × (b.services % 8 ≡ c.services % 8)
      × (b.resource_types % 8 ≡ c.resource_types % 8)
      × (value_or_empty b.starts_on ≡ value_or_empty c.starts_on)
      × (b.expires_on ≡ c.expires_on)
      × (value_or_empty b.ip_range ≡ value_or_empty c.ip_range)
      × (b.protocol ≡ c.protocol)
unfolding account_lines nth
account_string_to_sign_injective credential other b c h k e =
    let same =
      account_string_to_sign-lines credential other b c (account_lines-AreLines credential b h)
        (account_lines-AreLines other c k) e in
    (
      ap (nth 0) same,
      ap (nth 1) same,
      sym (flags_of-services b.services)
          ∙ ap (flags_of account_services) (ap (nth 2) same)
          ∙ flags_of-services c.services,
      sym (flags_of-resource_types b.resource_types)
          ∙ ap (flags_of account_resource_types) (ap (nth 3) same)
          ∙ flags_of-resource_types c.resource_types,
      ap (nth 4) same,
      ap (nth 5) same,
      ap (nth 6) same,
      protocol_injective b.protocol c.protocol (ap (nth 7) same),
    )
