-- ===== src/Storage/Crc64/Concatenate/Tests.antt =====
-- Checksums of texts.
use azure_sdk_for_cpp.Base.{
  ◌^◌, ◌<◌, ◌≡◌, refl, arith, Bool, true, ◌&&◌, ltb, [], ◌∷◌, ◌++◌, Bytes, AreBytes, codes, length,
}
use azure_sdk_for_cpp.Storage.Crc64.Xor.{◌⊕◌}
use azure_sdk_for_cpp.Storage.Crc64.Tables.{Bytes.mu1}
use azure_sdk_for_cpp.Storage.Crc64.Update.{
  Crc64, ones, update, update_crc, update_bytes, update_byte, byte_entry, word,
}
use azure_sdk_for_cpp.Storage.Crc64.Update.Reference.{crc_bytes}
use azure_sdk_for_cpp.Storage.Crc64.Update.Equivalence.{update-crc_bytes, update-append}
use azure_sdk_for_cpp.Storage.Crc64.Concatenate.{fresh, concatenate, hash, digest, digest_bytes}
use azure_sdk_for_cpp.Storage.Crc64.Concatenate.Zeros.{fresh-Fits, concatenate-update}
use azure_sdk_for_cpp.Storage.Crc64.Concatenate.Digest.{hash-crc_bytes}

are_bytes : Bytes → Bool
are_bytes [] = true
are_bytes (c ∷ s) = ltb c 256 && are_bytes s

are_bytes-AreBytes : (s : Bytes) → are_bytes s ≡ true → AreBytes s
unfolding are_bytes
are_bytes-AreBytes [] h = tt
are_bytes-AreBytes (c ∷ s) h = (ground arith, are_bytes-AreBytes s (ground arith))

-- More than two groups of 32 bytes.
abbrev long_text : Bytes
long_text =
    codes
      "The quick brown fox jumps over the lazy dog. The quick brown fox jumps over the lazy dog."

abbrev digits_text : Bytes
digits_text = codes "123456789"

long_text-AreBytes : AreBytes long_text
unfolding are_bytes
long_text-AreBytes = are_bytes-AreBytes long_text refl

digits_text-AreBytes : AreBytes digits_text
unfolding are_bytes
digits_text-AreBytes = are_bytes-AreBytes digits_text refl

check_value : word (hash digits_text) ≡ 0xAE8B14860A799888
unfolding word hash digest digest_bytes update update_crc update_bytes update_byte byte_entry mu1
check_value = refl

first : Crc64
first = update digits_text fresh

first-Fits : (first.context < 2 ^ 64) × (first.length < 2 ^ 64)
unfolding first update update_crc update_bytes update_byte byte_entry mu1
first-Fits = (omega arith, omega arith)

update-crc_bytes_example :
    (update long_text first).context ≡ crc_bytes long_text (first.context ⊕ ones) ⊕ ones
update-crc_bytes_example = update-crc_bytes long_text first long_text-AreBytes first-Fits

update-append_example :
    update (digits_text ++ long_text) fresh ≡ update long_text (update digits_text fresh)
update-append_example =
    update-append digits_text long_text fresh digits_text-AreBytes long_text-AreBytes fresh-Fits

concatenate-update_example : concatenate (update long_text fresh) first ≡ update long_text first
concatenate-update_example =
    concatenate-update long_text first long_text-AreBytes (omega arith) first-Fits

hash-crc_bytes_example :
    AreBytes (hash long_text)
    × (length (hash long_text) ≡ 8)
    × (word (hash long_text) ≡ crc_bytes long_text ones ⊕ ones)
hash-crc_bytes_example = hash-crc_bytes long_text long_text-AreBytes
