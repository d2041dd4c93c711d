-- ===== src/Base/Scan.antt =====
-- `std::find` on a range of bytes, and decimal numbers.
use Prim.Native.Nat.{ℕ, zero, suc, ◌+◌, ◌-◌, ◌*◌, ◌/◌, ◌%◌, ◌^◌, ◌≤◌, ◌<◌}
use native.Mathlib.Nat.{pow-suc}
use mathlib.Core.Path.{◌≡◌, refl, ap, ◌∙◌}
use mathlib.Core.Logic.{inl, inr}
use mathlib.Core.Bool.{Bool, true, false, not, ◌&&◌}
use mathlib.Core.List.{[], ◌∷◌, ◌++◌}
use native.Mathlib.Omega.{arith}
use azure_sdk_for_cpp.Base.Tests.{Bool-cases, ltb, leb, if◌then◌else◌}
use azure_sdk_for_cpp.Base.Lists.{length}
use azure_sdk_for_cpp.Base.Text.{Bytes}

-- The bytes before the first one that passes the test, and the bytes from it on.
abbrev pub until : (ℕ → Bool) → Bytes → Bytes
until p [] = []
until p (c ∷ s) = let rest = until p s in if p c then [] else c ∷ rest

abbrev pub from : (ℕ → Bool) → Bytes → Bytes
from p [] = []
from p (c ∷ s) = let rest = from p s in if p c then c ∷ s else rest

-- No byte passes the test.
abbrev pub Without : (ℕ → Bool) → Bytes → Type 0
Without p [] = Unit {0}
Without p (c ∷ s) = (p c ≡ false) × Without p s

-- The scan stops at the end of what passes no test, if the rest is empty or starts with a hit.
abbrev pub Stops : (ℕ → Bool) → Bytes → Type 0
Stops p [] = Unit {0}
Stops p (c ∷ s) = p c ≡ true

pub until-append : (p : ℕ → Bool) (s t : Bytes) → Without p s → Stops p t → until p (s ++ t) ≡ s
until-append p [] [] w h = refl
until-append p [] (c ∷ t) w h = rw h refl
until-append p (c ∷ s) t w h = rw w.0 (ap (◌∷◌ c) (until-append p s t w.1 h))

pub from-append : (p : ℕ → Bool) (s t : Bytes) → Without p s → Stops p t → from p (s ++ t) ≡ t
from-append p [] [] w h = refl
from-append p [] (c ∷ t) w h = rw h refl
from-append p (c ∷ s) t w h = rw w.0 (from-append p s t w.1 h)

pub length-from-le : (p : ℕ → Bool) (s : Bytes) → length (from p s) ≤ length s
length-from-le p [] = omega arith
length-from-le p (c ∷ s) = ground (arith, length-from-le p s)

abbrev pub is_decimal : ℕ → Bool
is_decimal c = leb b'0' c && leb c b'9'

-- The number that decimal digits stand for, after those that were read before them.
unfoldable pub decimal : ℕ → Bytes → ℕ
decimal acc [] = acc
decimal acc (c ∷ s) = decimal (acc * 10 + (c - b'0')) s

-- `std::to_string` of a number with at most as many digits as the fuel.
unfoldable pub to_decimal : ℕ → ℕ → Bytes
to_decimal zero n = []
to_decimal (suc fuel) n =
    let rest = to_decimal fuel (n / 10) in
    if ltb n 10 then (b'0' + n) ∷ [] else rest ++ (b'0' + n % 10) ∷ []

pub decimal-append :
    (acc : ℕ) (s : Bytes) (c : ℕ) → decimal acc (s ++ c ∷ []) ≡ decimal acc s * 10 + (c - b'0')
unfolding decimal
decimal-append acc [] c = refl
decimal-append acc (x ∷ s) c = decimal-append (acc * 10 + (x - b'0')) s c

decimal_digit : (acc d : ℕ) → decimal acc ((b'0' + d) ∷ []) ≡ acc * 10 + d
unfolding decimal
decimal_digit acc d = omega arith

decimal_nil : (acc : ℕ) → decimal acc [] ≡ acc
unfolding decimal
decimal_nil acc = refl

-- Printed and read again, a number is the same.
pub decimal-to_decimal : (fuel n : ℕ) → n < 10 ^ fuel → decimal 0 (to_decimal fuel n) ≡ n
unfolding to_decimal
decimal-to_decimal zero n h = omega (arith, decimal_nil 0)
decimal-to_decimal (suc fuel) n h = elim (Bool-cases (ltb n 10)) [
  | inl small ↦ rw small (decimal_digit 0 n ∙ omega arith)
  | inr large ↦
      let le : n / 10 < 10 ^ fuel = let e = pow-suc 10 fuel in omega arith in
      rw
        (
          large,
          decimal-append 0 (to_decimal fuel (n / 10)) (b'0' + n % 10),
          decimal-to_decimal fuel (n / 10) le,
        )
        (omega arith)
]

pub Without-append : (p : ℕ → Bool) (s t : Bytes) → Without p s → Without p t → Without p (s ++ t)
Without-append p [] t h k = k
Without-append p (c ∷ s) t h k = (h.0, Without-append p s t h.1 k)

-- A printed number has decimal digits only, and at least one.
pub Without-to_decimal : (fuel n : ℕ) → Without (λ c. not (is_decimal c)) (to_decimal fuel n)
unfolding to_decimal
Without-to_decimal zero n = tt
Without-to_decimal (suc fuel) n = elim (Bool-cases (ltb n 10)) [
  | inl small ↦ rw small (ground arith, tt)
  | inr large ↦ rw large (
      Without-append _ (to_decimal fuel (n / 10)) ((b'0' + n % 10) ∷ [])
        (Without-to_decimal fuel (n / 10)) (ground arith, tt))
]

abbrev pub is_empty : Bytes → Bool
is_empty [] = true
is_empty (c ∷ s) = false

pub is_empty-concat : (s : Bytes) (c : ℕ) → is_empty (s ++ c ∷ []) ≡ false
is_empty-concat [] c = refl
is_empty-concat (x ∷ s) c = refl

pub is_empty-to_decimal : (fuel n : ℕ) → is_empty (to_decimal (suc fuel) n) ≡ false
unfolding to_decimal
is_empty-to_decimal fuel n = elim (Bool-cases (ltb n 10)) [
  | inl small ↦ rw small refl
  | inr large ↦ rw large (is_empty-concat (to_decimal fuel (n / 10)) (b'0' + n % 10))
]

-- `Without`, by evaluation.
abbrev pub none_passes : (ℕ → Bool) → Bytes → Bool
none_passes p [] = true
none_passes p (c ∷ s) = let rest = none_passes p s in if p c then false else rest

pub none_passes-Without : (p : ℕ → Bool) (s : Bytes) → none_passes p s ≡ true → Without p s
none_passes-Without p [] e = tt
none_passes-Without p (c ∷ s) e = elim (Bool-cases (p c)) [
  | inl f ↦ absurd (ground (arith, f))
  | inr f ↦ (f, none_passes-Without p s (ground (arith, f)))
]
