-- ===== src/Http/Headers/Tests.antt =====
-- Runs of `AddHeader` on lines, and the theorems at concrete lines.
use azure_sdk_for_cpp.Base.{◌≡◌, refl, List, [], ◌∷◌, ◌++◌, Bytes, codes, if◌then◌else◌, ok, err}
use azure_sdk_for_cpp.Strings.{to_lower}
use azure_sdk_for_cpp.Dict.{assign}
use azure_sdk_for_cpp.Http.Headers.{
  invalid_name, no_delimiter, is_valid_name, add_header_line, insert_header_with_validation,
}
use azure_sdk_for_cpp.Http.Headers.Lines.{AreWellFormed, add_header_line-parts}

content_type :
    add_header_line [] (codes "Content-Type: text/xml\r\n")
    ≡ ok ((codes "content-type", codes "text/xml") ∷ [])
unfolding add_header_line insert_header_with_validation is_valid_name to_lower
    azure_sdk_for_cpp.Strings.to_lower_char assign
content_type = refl

bad_name : add_header_line [] (codes "Content@Type: text/xml\r\n") ≡ err invalid_name
unfolding add_header_line insert_header_with_validation is_valid_name to_lower
    azure_sdk_for_cpp.Strings.to_lower_char assign
bad_name = refl

no_colon : add_header_line [] (codes "Content-Type\r\n") ≡ err no_delimiter
unfolding add_header_line
no_colon = refl

abbrev one_header : List (Bytes × Bytes)
one_header = (codes "etag", codes "1") ∷ []

add_header_line-parts_example :
    add_header_line one_header
      (codes "Host" ++ (58 ∷ (codes " \t" ++ (codes "a.net" ++ codes "\r\n"))))
    ≡ (if is_valid_name (to_lower (codes "Host"))
        then ok (assign (to_lower (codes "Host")) (codes "a.net") one_header)
        else err invalid_name)
add_header_line-parts_example =
    add_header_line-parts one_header (codes "Host") (codes " \t") (codes "a.net") (codes "\r\n")
      (refl, (refl, (refl, (refl, tt)))) (refl, (refl, tt)) refl
      (refl, (refl, (refl, (refl, (refl, tt))))) refl

one_header-AreWellFormed : AreWellFormed one_header
one_header-AreWellFormed = ((tt, tt), ((refl, (refl, (refl, (refl, tt)))), tt))
