-- ===== src/Http/Url/Codec.antt =====
-- Percent encoding and decoding in url.cpp.
use azure_sdk_for_cpp.Base.{
  ℕ, ◌/◌, ◌%◌, ◌<◌, ◌≡◌, refl, ap, ◌∙◌, true, false, not, ◌&&◌, ◌||◌, [], ◌∷◌, some, ◌==◌, Bytes,
  AreBytes, ok, arith, Bool-cases, inl, inr,
}
use azure_sdk_for_cpp.Http.Url.{
  hex_value, hex_pair, cons_ok, decode, is_default_non_encoded, contains, hex_digit, encode,
}

hex_value-hex_digit : (v : ℕ) → v < 16 → hex_value (hex_digit v) ≡ some v
unfolding hex_value
hex_value-hex_digit v h = ground arith

hex_pair-hex_digit :
    (c : ℕ) → c < 256 → hex_pair (hex_digit (c / 16 % 16)) (hex_digit (c % 16)) ≡ some c
unfolding hex_pair
hex_pair-hex_digit c h =
    rw
      (
        hex_value-hex_digit (c / 16 % 16) (omega arith),
        hex_value-hex_digit (c % 16) (omega arith),
        hex_pair,
      )
      (ap some (omega arith))

decode-plain :
    (c : ℕ) (s : Bytes)
    → (c == b'+') ≡ false
    → (c == b'%') ≡ false
    → decode (c ∷ s) ≡ cons_ok c (decode s)
unfolding decode
decode-plain c [] p q = rw (p, q) refl
decode-plain c (d ∷ []) p q = rw (p, q) refl
decode-plain c (d ∷ e ∷ s) p q = rw (p, q) refl

decode-percent :
    (d e v : ℕ) (s : Bytes)
    → hex_pair d e ≡ some v
    → decode (b'%' ∷ d ∷ e ∷ s) ≡ cons_ok v (decode s)
unfolding decode
decode-percent d e v s h = rw (h, decode) refl

kept_plus :
    (c : ℕ) (keep : Bytes)
    → contains keep b'+' ≡ false
    → contains keep b'%' ≡ false
    → (not (is_default_non_encoded c) && not (contains keep c)) ≡ false
    → ((c == b'+') ≡ false) × ((c == b'%') ≡ false)
unfolding is_default_non_encoded
kept_plus c keep p q h = (ground arith, ground arith)

decode_nil : decode [] ≡ ok []
unfolding decode
decode_nil = refl

-- Bytes that were encoded are decoded to themselves, whatever symbols were left as they are, as
-- long as '+' and '%' are not among these.
pub decode-encode :
    (keep s : Bytes)
    → contains keep b'+' ≡ false
    → contains keep b'%' ≡ false
    → AreBytes s
    → decode (encode keep s) ≡ ok s
unfolding encode
decode-encode keep [] p q b = decode_nil
decode-encode keep (c ∷ s) p q (h, b) =
    let ih = decode-encode keep s p q b in
    elim (Bool-cases (not (is_default_non_encoded c) && not (contains keep c))) [
      | inl e ↦ rw e (
          decode-percent (hex_digit (c / 16 % 16)) (hex_digit (c % 16)) c (encode keep s)
            (hex_pair-hex_digit c h)
          ∙ ap (cons_ok c) ih)
      | inr e ↦
          let k = kept_plus c keep p q e in
          rw e (decode-plain c (encode keep s) k.0 k.1 ∙ ap (cons_ok c) ih)
    ]

-- A byte that may stand in an encoded component.
abbrev pub AllSafe : Bytes → Bytes → Type 0
AllSafe keep [] = Unit {0}
AllSafe keep (c ∷ s) =
    ((is_default_non_encoded c || contains keep c || c == b'%') ≡ true) × AllSafe keep s

hex_digit_safe : (v : ℕ) → v < 16 → is_default_non_encoded (hex_digit v) ≡ true
unfolding is_default_non_encoded
hex_digit_safe v h = ground arith

-- An encoded text has only unreserved characters, '%', and the symbols that were to be kept.
pub AllSafe-encode : (keep s : Bytes) → AllSafe keep (encode keep s)
unfolding encode
AllSafe-encode keep [] = tt
AllSafe-encode keep (c ∷ s) =
    elim (Bool-cases (not (is_default_non_encoded c) && not (contains keep c))) [
      | inl e ↦ rw e (
        ground arith,
        (
          rw (hex_digit_safe (c / 16 % 16) (omega arith)) refl,
          (rw (hex_digit_safe (c % 16) (omega arith)) refl, AllSafe-encode keep s),
        ),
      )
      | inr e ↦ rw e (ground arith, AllSafe-encode keep s)
    ]
