-- ===== src/Base/Text.antt =====
-- Byte strings: literals, equality and the order of `std::string`.
use Prim.Native.Nat.{ℕ, ◌<◌}
use Prim.Native.Char.{code}
use Prim.Native.String.{String}
use mathlib.Core.Path.{◌≡◌, refl, sym, ap, ◌∙◌}
use mathlib.Core.Logic.{◌↔◌}
use mathlib.Core.Bool.{Bool, true, false, ◌&&◌}
use mathlib.Core.List.{List, [], ◌∷◌}
use native.Mathlib.Omega.{arith}
use azure_sdk_for_cpp.Base.Tests.{ltb, ◌==◌, if◌then◌else◌}

abbrev pub Bytes : Type 0
Bytes = List ℕ

-- The bytes of an ASCII literal.
abbrev pub codes : String → Bytes
codes String.[] = []
codes (String.◌∷◌ c s) = code c ∷ codes s

-- `operator==` of `std::string`.
abbrev pub eqb : Bytes → Bytes → Bool
eqb [] [] = true
eqb [] (y ∷ ys) = false
eqb (x ∷ xs) [] = false
eqb (x ∷ xs) (y ∷ ys) = x == y && eqb xs ys

-- `operator<` of `std::string`: lexicographic, by unsigned bytes.
abbrev pub before : Bytes → Bytes → Bool
before [] [] = false
before [] (y ∷ ys) = true
before (x ∷ xs) [] = false
before (x ∷ xs) (y ∷ ys) =
    let rest = before xs ys in if ltb x y then true else if x == y then rest else false

pub eqb_refl : (xs : Bytes) → eqb xs xs ≡ true
eqb_refl [] = refl
eqb_refl (x ∷ xs) = ground (arith, eqb_refl xs)

pub eqb_sound : (xs ys : Bytes) → eqb xs ys ≡ true → xs ≡ ys
eqb_sound [] [] h = refl
eqb_sound [] (y ∷ ys) h = ground arith
eqb_sound (x ∷ xs) [] h = ground arith
eqb_sound (x ∷ xs) (y ∷ ys) h = ground (arith, eqb_sound xs ys)

pub eqb_iff : (xs ys : Bytes) → (eqb xs ys ≡ true) ↔ (xs ≡ ys)
eqb_iff xs ys = (eqb_sound xs ys, λ h. ap (eqb xs) (sym h) ∙ eqb_refl xs)

pub before_irrefl : (xs : Bytes) → before xs xs ≡ false
before_irrefl [] = refl
before_irrefl (x ∷ xs) = ground (arith, before_irrefl xs)

pub before_trans :
    (xs ys zs : Bytes) → before xs ys ≡ true → before ys zs ≡ true → before xs zs ≡ true
before_trans [] [] zs h k = k
before_trans [] (y ∷ ys) [] h k = k
before_trans [] (y ∷ ys) (z ∷ zs) h k = refl
before_trans (x ∷ xs) [] zs h k = cc
before_trans (x ∷ xs) (y ∷ ys) [] h k = k
before_trans (x ∷ xs) (y ∷ ys) (z ∷ zs) h k = ground (arith, before_trans xs ys zs)

-- Of two different texts one comes before the other.
pub before_total : (xs ys : Bytes) → before xs ys ≡ false → eqb xs ys ≡ false → before ys xs ≡ true
before_total [] [] h e = cc
before_total [] (y ∷ ys) h e = cc
before_total (x ∷ xs) [] h e = refl
before_total (x ∷ xs) (y ∷ ys) h e = ground (arith, before_total xs ys)

abbrev pub AreBytes : Bytes → Type 0
AreBytes [] = Unit {0}
AreBytes (c ∷ s) = (c < 256) × AreBytes s
