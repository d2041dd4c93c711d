-- ===== src/Storage/Sas/Letters.antt =====
-- The letters of the permissions, the services and the kinds of resources, read back.
use native.Mathlib.Nat.{one-le-pow}
use azure_sdk_for_cpp.Base.Digits.{bit_and-power}
use azure_sdk_for_cpp.Base.{
  ℕ, zero, suc, ◌+◌, ◌*◌, ◌/◌, ◌%◌, ◌^◌, ◌<◌, ◌≡◌, refl, ap, ◌∙◌, List, [], ◌∷◌, ◌==◌,
  if◌then◌else◌, Bytes, Bool, false, ◌&&◌, ◌||◌, arith, Bool-cases, inl, inr,
}
use azure_sdk_for_cpp.Http.Url.{contains}
use azure_sdk_for_cpp.Storage.Sas.{has, letters}
use azure_sdk_for_cpp.Storage.Sas.Account.{
  AccountSasBuilder, set_permissions, account_permissions, account_services, account_resource_types,
}
use azure_sdk_for_cpp.Storage.Sas.Blob.{
  BlobSasBuilder, set_container_permissions, container_permissions, set_blob_permissions,
  blob_permissions,
}

-- The flag of a letter, and the flags of a text.
unfoldable pub flag_of : List (ℕ × ℕ) → ℕ → ℕ
flag_of [] c = 0
flag_of ((flag, letter) ∷ tests) c =
    let rest = flag_of tests c in if letter == c then flag else rest

unfoldable pub flags_of : List (ℕ × ℕ) → Bytes → ℕ
flags_of tests [] = 0
flags_of tests (c ∷ s) = flag_of tests c + flags_of tests s

-- The flags of the letters that are written.
written : List (ℕ × ℕ) → List (ℕ × ℕ) → ℕ → ℕ
written all [] flags = 0
written all ((flag, letter) ∷ tests) flags =
    (if has flags flag then flag_of all letter else 0) + written all tests flags

flags_of-letters :
    (all tests : List (ℕ × ℕ)) (flags : ℕ)
    → flags_of all (letters tests flags) ≡ written all tests flags
unfolding flags_of letters written
flags_of-letters all [] flags = refl
flags_of-letters all ((flag, letter) ∷ tests) flags = elim (Bool-cases (has flags flag)) [
  | inl e ↦ rw e (ap (λ (n : ℕ). flag_of all letter + n) (flags_of-letters all tests flags))
  | inr e ↦ rw e (flags_of-letters all tests flags ∙ omega arith)
]

digit_flag : (d x : ℕ) → d < 2 → 0 < x → (if d * x == x then x else 0) ≡ d * x
digit_flag zero x p q = ground arith
digit_flag (suc zero) x p q = let e : 1 * x ≡ x = omega arith in ground (arith, e)
digit_flag (suc (suc d)) x p q = absurd (omega arith)

written_flag : (k flags : ℕ) → (if has flags (2 ^ k) then 2 ^ k else 0) ≡ flags / 2 ^ k % 2 * 2 ^ k
unfolding has
written_flag k flags =
    rw (bit_and-power k flags)
      (digit_flag (flags / 2 ^ k % 2) (2 ^ k) (omega arith) (one-le-pow k 2 (omega arith)))

pub flags_of-services :
    (flags : ℕ) → flags_of account_services (letters account_services flags) ≡ flags % 8
unfolding written flag_of
flags_of-services flags =
    flags_of-letters account_services account_services flags
    ∙ omega (arith, written_flag 0 flags, written_flag 1 flags, written_flag 2 flags)

pub flags_of-resource_types :
    (flags : ℕ) → flags_of account_resource_types (letters account_resource_types flags) ≡ flags % 8
unfolding written flag_of
flags_of-resource_types flags =
    flags_of-letters account_resource_types account_resource_types flags
    ∙ omega (arith, written_flag 0 flags, written_flag 1 flags, written_flag 2 flags)

-- The letters of an account's permissions, read back, are the flags that were given, of those
-- eleven that have a name.
pub set_permissions-flags_of :
    (flags : ℕ) (b : AccountSasBuilder)
    → flags_of account_permissions (set_permissions flags b).permissions ≡ flags % 2 ^ 11
unfolding set_permissions written flag_of
set_permissions-flags_of flags b =
    flags_of-letters account_permissions account_permissions flags
    ∙ omega (
      arith,
      written_flag 0 flags,
      written_flag 1 flags,
      written_flag 2 flags,
      written_flag 3 flags,
      written_flag 4 flags,
      written_flag 5 flags,
      written_flag 6 flags,
      written_flag 7 flags,
      written_flag 8 flags,
      written_flag 9 flags,
      written_flag 10 flags,
    )

-- The same for the permissions of a container and of a blob, whose letters stand in another order than
-- their flags.
pub set_container_permissions-flags_of :
    (flags : ℕ) (b : BlobSasBuilder)
    → flags_of container_permissions (set_container_permissions flags b).permissions ≡ flags % 2 ^ 8
unfolding set_container_permissions written flag_of
set_container_permissions-flags_of flags b =
    flags_of-letters container_permissions container_permissions flags
    ∙ omega (
      arith,
      written_flag 0 flags,
      written_flag 1 flags,
      written_flag 2 flags,
      written_flag 3 flags,
      written_flag 4 flags,
      written_flag 5 flags,
      written_flag 6 flags,
      written_flag 7 flags,
    )

pub set_blob_permissions-flags_of :
    (flags : ℕ) (b : BlobSasBuilder)
    → flags_of blob_permissions (set_blob_permissions flags b).permissions ≡ flags % 2 ^ 7
unfolding set_blob_permissions written flag_of
set_blob_permissions-flags_of flags b =
    flags_of-letters blob_permissions blob_permissions flags
    ∙ omega (
      arith,
      written_flag 0 flags,
      written_flag 1 flags,
      written_flag 2 flags,
      written_flag 3 flags,
      written_flag 4 flags,
      written_flag 5 flags,
      written_flag 6 flags,
    )

-- Whether a letter is among those that are written.
granted : List (ℕ × ℕ) → ℕ → ℕ → Bool
granted [] flags c = false
granted ((flag, letter) ∷ tests) flags c =
    let rest = granted tests flags c in (letter == c && has flags flag) || rest

contains-letters :
    (tests : List (ℕ × ℕ)) (flags c : ℕ) → contains (letters tests flags) c ≡ granted tests flags c
unfolding contains letters granted
contains-letters [] flags c = refl
contains-letters ((flag, letter) ∷ tests) flags c = elim (Bool-cases (has flags flag)) [
  | inl e ↦ rw e (ground (arith, contains-letters tests flags c))
  | inr e ↦ rw e (ground (arith, contains-letters tests flags c))
]

pub has-power : (k flags : ℕ) → has flags (2 ^ k) ≡ (flags / 2 ^ k % 2 == 1)
unfolding has
has-power k flags =
    rw (bit_and-power k flags)
      (go (flags / 2 ^ k % 2) (2 ^ k) (omega arith) (one-le-pow k 2 (omega arith)))
  where
    go : (d x : ℕ) → d < 2 → 0 < x → (d * x == x) ≡ (d == 1)
    go zero x p q = ground arith
    go (suc zero) x p q = let e : 1 * x ≡ x = omega arith in ground (arith, e)
    go (suc (suc d)) x p q = absurd (omega arith)

-- The permissions of an account's token grant a right exactly if its flag was given: 'r' for 1, 'w' for
-- 2, 'd' for 4, 'x' for 8, 'l' for 16, 'a' for 32, 'c' for 64, 'u' for 128, 'p' for 256, 't' for 512 and
-- 'f' for 1024.
pub set_permissions-contains :
    (flags : ℕ) (b : AccountSasBuilder)
    → let permissions = (set_permissions flags b).permissions in
      (contains permissions b'r' ≡ (flags % 2 == 1))
      × (contains permissions b'w' ≡ (flags / 2 % 2 == 1))
      × (contains permissions b'd' ≡ (flags / 4 % 2 == 1))
      × (contains permissions b'x' ≡ (flags / 8 % 2 == 1))
      × (contains permissions b'l' ≡ (flags / 16 % 2 == 1))
      × (contains permissions b'a' ≡ (flags / 32 % 2 == 1))
      × (contains permissions b'c' ≡ (flags / 64 % 2 == 1))
      × (contains permissions b'u' ≡ (flags / 128 % 2 == 1))
      × (contains permissions b'p' ≡ (flags / 256 % 2 == 1))
      × (contains permissions b't' ≡ (flags / 512 % 2 == 1))
      × (contains permissions b'f' ≡ (flags / 1024 % 2 == 1))
unfolding set_permissions granted
set_permissions-contains flags b = (
  contains-letters account_permissions flags b'r' ∙ ground (arith, has-power 0 flags),
  contains-letters account_permissions flags b'w' ∙ ground (arith, has-power 1 flags),
  contains-letters account_permissions flags b'd' ∙ ground (arith, has-power 2 flags),
  contains-letters account_permissions flags b'x' ∙ ground (arith, has-power 3 flags),
  contains-letters account_permissions flags b'l' ∙ ground (arith, has-power 4 flags),
  contains-letters account_permissions flags b'a' ∙ ground (arith, has-power 5 flags),
  contains-letters account_permissions flags b'c' ∙ ground (arith, has-power 6 flags),
  contains-letters account_permissions flags b'u' ∙ ground (arith, has-power 7 flags),
  contains-letters account_permissions flags b'p' ∙ ground (arith, has-power 8 flags),
  contains-letters account_permissions flags b't' ∙ ground (arith, has-power 9 flags),
  contains-letters account_permissions flags b'f' ∙ ground (arith, has-power 10 flags),
)
