-- ===== src/Http/Headers/Lines.antt =====
-- What reading a header line of a response does: raw_response.cpp.
use azure_sdk_for_cpp.Base.{
  ℕ, ◌≡◌, refl, Bool, true, false, ◌||◌, List, [], ◌∷◌, ◌++◌, none, eqb_iff, ◌==◌, if◌then◌else◌,
  Bytes, until, from, Without, Stops, until-append, from-append, OnOk, ok, err, arith, Bool-cases,
  inl, inr, is_empty,
}
use azure_sdk_for_cpp.Strings.{to_lower, IsLower, to_lower-IsLower}
use azure_sdk_for_cpp.Dict.{find, assign, erase, IsSorted}
use azure_sdk_for_cpp.Dict.Laws.{assign-IsSorted}
use azure_sdk_for_cpp.Http.Headers.{
  invalid_name, no_delimiter, is_valid_name, insert_header_with_validation, is_colon, is_return,
  skip_blanks, add_header_line,
}

abbrev pub is_blank : ℕ → Bool
is_blank c = c == b' ' || c == b'\t'

-- Blanks only.
abbrev pub AreBlanks : Bytes → Type 0
AreBlanks [] = Unit {0}
AreBlanks (c ∷ s) = (is_blank c ≡ true) × AreBlanks s

-- Empty, or a first byte that is no blank.
abbrev pub StartsFull : Bytes → Type 0
StartsFull [] = Unit {0}
StartsFull (c ∷ s) = is_blank c ≡ false

skip_blanks-append :
    (blanks s : Bytes) → AreBlanks blanks → StartsFull s → skip_blanks (blanks ++ s) ≡ s
skip_blanks-append [] [] b f = refl
skip_blanks-append [] (c ∷ s) b f = rw f refl
skip_blanks-append (c ∷ blanks) s b f = rw b.0 (skip_blanks-append blanks s b.1 f)

-- A line of a name, a colon, blanks and a value that starts with no blank, and that a carriage
-- return or nothing follows, sets the header of the name in lower case to the value and leaves the
-- other headers as they are; if the name has an invalid byte, the line is refused.
pub add_header_line-parts :
    (headers : List (Bytes × Bytes)) (name blanks value end : Bytes)
    → Without is_colon name
    → AreBlanks blanks
    → StartsFull (value ++ end)
    → Without is_return value
    → Stops is_return end
    → add_header_line headers (name ++ (b':' ∷ (blanks ++ (value ++ end)))) ≡ (
        if is_valid_name (to_lower name)
        then ok (assign (to_lower name) value headers)
        else err invalid_name)
unfolding add_header_line insert_header_with_validation
add_header_line-parts headers name blanks value end hn hb hf hv he =
    let rest = b':' ∷ (blanks ++ (value ++ end)) in
    elim (Bool-cases (is_valid_name (to_lower name))) [
      | inl e ↦
          rw
            (
              from-append is_colon name rest hn refl,
              until-append is_colon name rest hn refl,
              skip_blanks-append blanks (value ++ end) hb hf,
              until-append is_return value end hv he,
              e,
            )
            refl
      | inr e ↦
          rw (from-append is_colon name rest hn refl, until-append is_colon name rest hn refl, e)
            refl
    ]

from_nil : (p : ℕ → Bool) (s : Bytes) → Without p s → from p s ≡ []
from_nil p [] w = refl
from_nil p (c ∷ s) w = rw w.0 (from_nil p s w.1)

-- A line without a colon is refused.
pub add_header_line-no_colon :
    (headers : List (Bytes × Bytes)) (line : Bytes)
    → Without is_colon line
    → add_header_line headers line ≡ err no_delimiter
unfolding add_header_line
add_header_line-no_colon headers line w = rw (from_nil is_colon line w) refl

-- The keys are in order, each in lower case.
abbrev pub AreLower : List (Bytes × Bytes) → Type 0
AreLower [] = Unit {0}
AreLower ((k, v) ∷ m) = IsLower k × AreLower m

abbrev pub AreWellFormed : List (Bytes × Bytes) → Type 0
AreWellFormed m = IsSorted m × AreLower m

AreLower-assign :
    (k v : Bytes) (m : List (Bytes × Bytes)) → IsLower k → AreLower m → AreLower (assign k v m)
unfolding assign
AreLower-assign k v [] h l = (h, tt)
AreLower-assign k v ((j, w) ∷ m) h l = ground (arith, AreLower-assign k v m h l.1)

pub insert-AreWellFormed :
    (headers : List (Bytes × Bytes)) (name value : Bytes)
    → AreWellFormed headers
    → OnOk AreWellFormed (insert_header_with_validation headers (to_lower name) value)
unfolding insert_header_with_validation
insert-AreWellFormed headers name value (s, l) = elim (Bool-cases (is_valid_name (to_lower name))) [
  | inl e ↦ rw e (
    assign-IsSorted (to_lower name) value headers s,
    AreLower-assign (to_lower name) value headers (to_lower-IsLower name) l,
  )
  | inr e ↦ rw e tt
]

-- Whatever the line, headers in order with names in lower case stay so.
pub add_header_line-AreWellFormed :
    (headers : List (Bytes × Bytes)) (line : Bytes)
    → AreWellFormed headers
    → OnOk AreWellFormed (add_header_line headers line)
unfolding add_header_line
add_header_line-AreWellFormed headers line w = elim (Bool-cases (is_empty (from is_colon line))) [
  | inl e ↦ rw e tt
  | inr e ↦ rw e (insert-AreWellFormed headers (until is_colon line) _ w)
]

-- A name with an upper-case letter finds no header.
pub find-upper : (k : Bytes) (m : List (Bytes × Bytes)) → AreLower m → ¬ IsLower k → find k m ≡ none
unfolding find
find-upper k [] l h = refl
find-upper k ((j, w) ∷ m) l h = ground (arith, eqb_iff j k, find-upper k m l.1 h)

pub erase-upper : (k : Bytes) (m : List (Bytes × Bytes)) → AreLower m → ¬ IsLower k → erase k m ≡ m
unfolding erase
erase-upper k [] l h = refl
erase-upper k ((j, w) ∷ m) l h = ground (arith, eqb_iff j k, erase-upper k m l.1 h)
