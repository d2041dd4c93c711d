-- ===== src/Strings/Tests.antt =====
-- The theorem on the comparison without regard to case, at two spellings of a header's name.
use azure_sdk_for_cpp.Base.{◌≡◌, ◌↔◌, true, codes}
use azure_sdk_for_cpp.Strings.{
  locale_invariant_case_insensitive_equal, AreSame, case_insensitive-AreSame,
}

case_insensitive-AreSame_example :
    (locale_invariant_case_insensitive_equal (codes "ETag") (codes "eTAG") ≡ true)
    ↔ AreSame (codes "ETag") (codes "eTAG")
case_insensitive-AreSame_example = case_insensitive-AreSame (codes "ETag") (codes "eTAG")
