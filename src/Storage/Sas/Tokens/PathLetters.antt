-- ===== src/Storage/Sas/Tokens/PathLetters.antt =====
-- The letters of permissions in datalake_sas_builder.cpp, which stand in a token as they are.
use azure_sdk_for_cpp.Base.{
  ℕ, ◌≡◌, refl, Bool, true, ◌&&◌, ◌≤◌, List, [], ◌∷◌, Bytes, leb, arith, Bool-cases, inl, inr,
}
use azure_sdk_for_cpp.Http.Url.{encode, is_default_non_encoded}
use azure_sdk_for_cpp.Storage.Sas.{has, letters}
use azure_sdk_for_cpp.Storage.Sas.DataLake.{
  DataLakeSasBuilder, set_path_permissions, path_permissions, set_file_system_permissions,
  file_system_permissions,
}

-- Lower-case letters of ASCII, as those are that stand for permissions.
abbrev pub AreLetters : Bytes → Type 0
AreLetters [] = Unit {0}
AreLetters (c ∷ s) = (b'a' ≤ c) × (c ≤ b'z') × AreLetters s

are_letters : List (ℕ × ℕ) → Bool
are_letters [] = true
are_letters ((flag, letter) ∷ tests) = leb b'a' letter && (leb letter b'z' && are_letters tests)

letters-AreLetters :
    (tests : List (ℕ × ℕ)) (flags : ℕ) → are_letters tests ≡ true → AreLetters (letters tests flags)
unfolding are_letters letters
letters-AreLetters [] flags e = tt
letters-AreLetters ((flag, letter) ∷ tests) flags e = elim (Bool-cases (has flags flag)) [
  | inl f ↦ rw f (ground arith, ground arith, letters-AreLetters tests flags (ground arith))
  | inr f ↦ rw f (letters-AreLetters tests flags (ground arith))
]

-- The permissions that are set by flags are letters.
pub set_path_permissions-AreLetters :
    (flags : ℕ) (b : DataLakeSasBuilder) → AreLetters (set_path_permissions flags b).permissions
unfolding set_path_permissions are_letters
set_path_permissions-AreLetters flags b = letters-AreLetters path_permissions flags refl

pub set_file_system_permissions-AreLetters :
    (flags : ℕ) (b : DataLakeSasBuilder)
    → AreLetters (set_file_system_permissions flags b).permissions
unfolding set_file_system_permissions are_letters
set_file_system_permissions-AreLetters flags b =
    letters-AreLetters file_system_permissions flags refl

pub encode-AreLetters : (keep s : Bytes) → AreLetters s → encode keep s ≡ s
unfolding encode is_default_non_encoded
encode-AreLetters keep [] w = refl
encode-AreLetters keep (c ∷ s) w =
    let rest = encode-AreLetters keep s w.2 in let lo = w.0 in let hi = w.1 in ground (arith, rest)
