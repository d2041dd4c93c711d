-- ===== src/Http/Headers.antt =====
-- sdk/core/azure-core/src/http/http.cpp, and the headers of `RawResponse` in raw_response.cpp.
pub mod Lines
mod Tests
use azure_sdk_for_cpp.Base.{
  ℕ, Bool, true, false, not, ◌&&◌, ◌||◌, List, [], ◌∷◌, ◌==◌, if◌then◌else◌, get_or, drop, Bytes,
  until, from, is_empty, Result, ok, err, ◌>>=◌, ◌>>◌, require,
}
use azure_sdk_for_cpp.Strings.{to_lower}
use azure_sdk_for_cpp.Dict.{assign}

pub data HeaderError : Type 0 where
  invalid_name no_delimiter : HeaderError

-- `validChars`, of which the code leaves out the second half, all zeros. As in that half, a byte
-- above 127 counts as invalid, also where `char` is signed and the index would be negative.
abbrev valid_chars : List ℕ
valid_chars =
    0 ∷ 0 ∷ 0 ∷ 0 ∷ 0 ∷ 0 ∷ 0 ∷ 0 ∷ 0 ∷ 0 ∷ 0 ∷ 0 ∷ 0 ∷ 0 ∷ 0 ∷ 0 ∷ 0 ∷ 0 ∷ 0 ∷ 0 ∷ 0 ∷ 0 ∷ 0 ∷ 0
    ∷ 0 ∷ 0 ∷ 0 ∷ 0 ∷ 0 ∷ 0 ∷ 0 ∷ 0 ∷ 32 ∷ 33 ∷ 0 ∷ 35 ∷ 36 ∷ 37 ∷ 38 ∷ 39 ∷ 0 ∷ 0 ∷ 42 ∷ 43 ∷ 0
    ∷ 45 ∷ 46 ∷ 0 ∷ 48 ∷ 49 ∷ 50 ∷ 51 ∷ 52 ∷ 53 ∷ 54 ∷ 55 ∷ 56 ∷ 57 ∷ 0 ∷ 0 ∷ 0 ∷ 0 ∷ 0 ∷ 0 ∷ 0 ∷ 97
    ∷ 98 ∷ 99 ∷ 100 ∷ 101 ∷ 102 ∷ 103 ∷ 104 ∷ 105 ∷ 106 ∷ 107 ∷ 108 ∷ 109 ∷ 110 ∷ 111 ∷ 112 ∷ 113
    ∷ 114 ∷ 115 ∷ 116 ∷ 117 ∷ 118 ∷ 119 ∷ 120 ∷ 121 ∷ 122 ∷ 0 ∷ 0 ∷ 0 ∷ 94 ∷ 95 ∷ 96 ∷ 97 ∷ 98 ∷ 99
    ∷ 100 ∷ 101 ∷ 102 ∷ 103 ∷ 104 ∷ 105 ∷ 106 ∷ 107 ∷ 108 ∷ 109 ∷ 110 ∷ 111 ∷ 112 ∷ 113 ∷ 114 ∷ 115
    ∷ 116 ∷ 117 ∷ 118 ∷ 119 ∷ 120 ∷ 121 ∷ 122 ∷ 0 ∷ 124 ∷ 0 ∷ 126 ∷ 0 ∷ []

unfoldable pub is_valid_name : Bytes → Bool
is_valid_name [] = true
is_valid_name (c ∷ s) = not (get_or valid_chars c 0 == 0) && is_valid_name s

unfoldable pub insert_header_with_validation :
    List (Bytes × Bytes) → Bytes → Bytes → Result HeaderError (List (Bytes × Bytes))
insert_header_with_validation headers name value = do
  require (is_valid_name name) invalid_name
  ok (assign name value headers)

abbrev pub is_colon : ℕ → Bool
is_colon c = c == b':'

abbrev pub is_return : ℕ → Bool
is_return c = c == b'\r'

-- `while (start < last && (*start == ' ' || *start == '\t')) ++start;`
abbrev pub skip_blanks : Bytes → Bytes
skip_blanks s = from (λ c. not (c == b' ' || c == b'\t')) s

-- `RawResponse::AddHeader` of a line of the response.
unfoldable pub add_header_line :
    List (Bytes × Bytes) → Bytes → Result HeaderError (List (Bytes × Bytes))
add_header_line headers line = do
  let after = from is_colon line
  require (not (is_empty after)) no_delimiter
  insert_header_with_validation headers (to_lower (until is_colon line))
      (until is_return (skip_blanks (drop 1 after)))
