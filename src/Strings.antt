-- ===== src/Strings.antt =====
-- sdk/core/azure-core/src/strings.cpp: the locale-invariant functions on characters.
mod Tests
use azure_sdk_for_cpp.Base.{
  ℕ, suc, ◌+◌, ◌⊎◌, ◌≤◌, ◌<◌, ◌≡◌, refl, ◌∙◌, ap, ap₂, ◌↔◌, Bool, true, false, ◌&&◌, List, [], ◌∷◌,
  map, arith, ltb, leb, ◌==◌, if◌then◌else◌, get_or, Bytes, ==_iff,
}

-- `c_LocaleInvariantLowercaseTable`: 0x41 to 0x5A are raised by 0x20, every other entry is its
-- index.
abbrev table_entry : ℕ → ℕ
table_entry i = if leb 0x41 i && leb i 0x5A then i + 0x20 else i

unfoldable pub to_lower_char : ℕ → ℕ
to_lower_char symbol = table_entry symbol

unfoldable pub to_lower : Bytes → Bytes
to_lower [] = []
to_lower (c ∷ s) = to_lower_char c ∷ to_lower s

unfoldable pub locale_invariant_case_insensitive_equal : Bytes → Bytes → Bool
locale_invariant_case_insensitive_equal [] [] = true
locale_invariant_case_insensitive_equal [] (y ∷ ys) = false
locale_invariant_case_insensitive_equal (x ∷ xs) [] = false
locale_invariant_case_insensitive_equal (x ∷ xs) (y ∷ ys) =
    to_lower_char x == to_lower_char y && locale_invariant_case_insensitive_equal xs ys

to_lower_char-to_lower_char : (c : ℕ) → to_lower_char (to_lower_char c) ≡ to_lower_char c
unfolding to_lower_char
to_lower_char-to_lower_char c = ground arith

pub to_lower-to_lower : (s : Bytes) → to_lower (to_lower s) ≡ to_lower s
unfolding to_lower
to_lower-to_lower [] = refl
to_lower-to_lower (c ∷ s) = ap₂ ◌∷◌ (to_lower_char-to_lower_char c) (to_lower-to_lower s)

-- No upper-case ASCII letter.
abbrev pub IsLower : Bytes → Type 0
IsLower [] = Unit {0}
IsLower (c ∷ s) = ((leb 0x41 c && leb c 0x5A) ≡ false) × IsLower s

pub to_lower-IsLower : (s : Bytes) → IsLower (to_lower s)
unfolding to_lower to_lower_char
to_lower-IsLower [] = tt
to_lower-IsLower (c ∷ s) = (ground arith, to_lower-IsLower s)

-- The same letter of ASCII in either case, or the same byte.
abbrev pub IsSame : ℕ → ℕ → Type 0
IsSame x y =
    (x ≡ y)
    ⊎ ((0x41 ≤ x) × (x ≤ 0x5A) × (y ≡ x + 0x20))
    ⊎ ((0x41 ≤ y) × (y ≤ 0x5A) × (x ≡ y + 0x20))

abbrev pub AreSame : Bytes → Bytes → Type 0
AreSame [] [] = Unit {0}
AreSame [] (y ∷ ys) = ⊥
AreSame (x ∷ xs) [] = ⊥
AreSame (x ∷ xs) (y ∷ ys) = IsSame x y × AreSame xs ys

to_lower_char-IsSame : (x y : ℕ) → (to_lower_char x ≡ to_lower_char y) ↔ IsSame x y
unfolding to_lower_char
to_lower_char-IsSame x y = ground arith

-- Two strings are equal without regard to case exactly if they are of one length and, at each position,
-- have the same byte or the two cases of one of the letters from 'A' to 'Z'.
pub case_insensitive-AreSame :
    (l r : Bytes) → (locale_invariant_case_insensitive_equal l r ≡ true) ↔ AreSame l r
unfolding locale_invariant_case_insensitive_equal
case_insensitive-AreSame [] [] = (λ h. tt, λ h. refl)
case_insensitive-AreSame [] (y ∷ ys) = (λ h. absurd cc, λ h. absurd h)
case_insensitive-AreSame (x ∷ xs) [] = (λ h. absurd cc, λ h. absurd h)
case_insensitive-AreSame (x ∷ xs) (y ∷ ys) =
    let same = to_lower_char-IsSame x y in
    let rest = case_insensitive-AreSame xs ys in
    (
      (λ h. (same.0 (ground arith), rest.0 (ground arith))),
      (λ (p, q). let e = same.1 p in let f = rest.1 q in ground arith),
    )
