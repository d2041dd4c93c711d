-- ===== src/Http/Request/Tests.antt =====
-- The theorems on the headers of a request, at a request with a header of its own and one of a try.
use azure_sdk_for_cpp.Base.{◌≡◌, refl, true, [], ◌∷◌, some, if◌then◌else◌, codes, eqb, ok}
use azure_sdk_for_cpp.Strings.{to_lower, IsLower}
use azure_sdk_for_cpp.Dict.{find}
use azure_sdk_for_cpp.Http.Headers.{is_valid_name}
use azure_sdk_for_cpp.Http.Url.{Url}
use azure_sdk_for_cpp.Http.Request.{Request, get, add_header, remove_header, get_headers}
use azure_sdk_for_cpp.Http.Request.Overrides.{IsWellFormed, find-add_header, remove_header-upper}

abbrev pub some_url : Url
some_url = record {
  scheme = codes "https";
  host = codes "a.net";
  port = 0;
  encoded_path = codes "c";
  encoded_query_parameters = [];
}

abbrev tried : Request
tried = record {
  method = get;
  url = some_url;
  headers = (codes "etag", codes "1") ∷ [];
  retry_headers = (codes "date", codes "2") ∷ [];
  retry_mode_enabled = true;
  body = record { bytes = []; offset = 0 };
}

tried-IsWellFormed : IsWellFormed tried
tried-IsWellFormed = (
  ((tt, tt), ((refl, (refl, (refl, (refl, tt)))), tt)),
  ((tt, tt), ((refl, (refl, (refl, (refl, tt)))), tt)),
)

valid_host : is_valid_name (to_lower (codes "Host")) ≡ true
unfolding is_valid_name to_lower azure_sdk_for_cpp.Strings.to_lower_char
valid_host = refl

find-add_header_example :
    (after : Request) × (add_header tried (codes "Host") (codes "a.net") ≡ ok after)
    × (find (codes "host") (get_headers after) ≡ (
        if eqb (to_lower (codes "Host")) (codes "host")
        then some (codes "a.net")
        else find (codes "host") (get_headers tried)))
find-add_header_example =
    find-add_header tried (codes "Host") (codes "a.net") (codes "host") tried-IsWellFormed
      valid_host (λ e. absurd cc)

not-IsLower : ¬ IsLower (codes "ETag")
not-IsLower h = let e = h.0 in cc

remove_header-upper_example :
    find (codes "etag") (get_headers (remove_header tried (codes "ETag")))
    ≡ find (codes "etag") (get_headers tried)
remove_header-upper_example =
    remove_header-upper tried (codes "ETag") (codes "etag") tried-IsWellFormed not-IsLower
