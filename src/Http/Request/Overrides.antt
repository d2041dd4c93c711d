-- ===== src/Http/Request/Overrides.antt =====
-- The two layers of headers of a request, those of a try over the others: request.cpp.
use azure_sdk_for_cpp.Base.{
  ◌≡◌, refl, true, false, [], some, if◌then◌else◌, Bytes, eqb, ok, OnOk, OnOk-bind, arith,
  Bool-cases, inl, inr,
}
use azure_sdk_for_cpp.Strings.{to_lower, IsLower}
use azure_sdk_for_cpp.Dict.{find, assign}
use azure_sdk_for_cpp.Dict.Laws.{or_else, find-assign, find-insert_all, assign-IsSorted}
use azure_sdk_for_cpp.Http.Headers.{is_valid_name, insert_header_with_validation}
use azure_sdk_for_cpp.Http.Headers.Lines.{AreWellFormed, insert-AreWellFormed, erase-upper}
use azure_sdk_for_cpp.Http.Request.{Request, add_header, remove_header, start_try, get_headers}

abbrev pub IsWellFormed : Request → Type 0
IsWellFormed r = AreWellFormed r.headers × AreWellFormed r.retry_headers

-- Adding a header keeps both layers in order with names in lower case.
pub add_header-IsWellFormed :
    (r : Request) (name value : Bytes)
    → IsWellFormed r
    → OnOk IsWellFormed (add_header r name value)
unfolding add_header
add_header-IsWellFormed r name value (w, v) = elim (Bool-cases r.retry_mode_enabled) [
  | inl e ↦ rw e (
      OnOk-bind AreWellFormed IsWellFormed
        (insert_header_with_validation r.retry_headers (to_lower name) value) _
        (insert-AreWellFormed r.retry_headers name value v) (λ h k. (w, k)))
  | inr e ↦ rw e (
      OnOk-bind AreWellFormed IsWellFormed
        (insert_header_with_validation r.headers (to_lower name) value) _
        (insert-AreWellFormed r.headers name value w) (λ h k. (k, v)))
]

find-get_headers :
    (r : Request) (i : Bytes)
    → IsWellFormed r
    → find i (get_headers r) ≡ or_else (find i r.retry_headers) (find i r.headers)
unfolding get_headers
find-get_headers r i w = find-insert_all i r.retry_headers r.headers w.1.0

-- With a valid name, adding a header succeeds, and the headers to be sent then have its value under
-- its name in lower case in both modes, provided that without retry mode no header of the try hides it;
-- every other header is as it was.
pub find-add_header :
    (r : Request) (name value i : Bytes)
    → IsWellFormed r
    → is_valid_name (to_lower name) ≡ true
    → (r.retry_mode_enabled ≡ false → r.retry_headers ≡ [])
    → (after : Request) × (add_header r name value ≡ ok after)
      × (find i (get_headers after)
          ≡ (if eqb (to_lower name) i then some value else find i (get_headers r)))
unfolding add_header insert_header_with_validation get_headers find
find-add_header r name value i w h empty = elim (Bool-cases r.retry_mode_enabled) [
  | inl e ↦
      rw (e, h)
        (
          record r {
            retry_headers = assign (to_lower name) value r.retry_headers;
            retry_mode_enabled = true;
          },
          refl,
          rw
              (
                find-insert_all i (assign (to_lower name) value r.retry_headers) r.headers
                    (assign-IsSorted (to_lower name) value r.retry_headers w.1.0),
                find-assign (to_lower name) i value r.retry_headers,
                find-insert_all i r.retry_headers r.headers w.1.0,
              )
              (ground arith),
        )
  | inr e ↦
      rw (e, h)
        (
          record r { headers = assign (to_lower name) value r.headers; retry_mode_enabled = false },
          refl,
          rw
              (
                empty e,
                find-insert_all i [] (assign (to_lower name) value r.headers) tt,
                find-insert_all i [] r.headers tt,
                find-assign (to_lower name) i value r.headers,
              )
              refl,
        )
]

-- A new try starts from the headers that were set before the first one: whatever headers a try has
-- set, the next one has none of them.
pub find-start_try :
    (r : Request) (i : Bytes) → find i (get_headers (start_try r)) ≡ find i r.headers
unfolding start_try get_headers find
find-start_try r i = find-insert_all i [] r.headers tt

-- Adding a header in a try does not change what the next try starts from.
pub start_try-add_header :
    (r : Request) (name value : Bytes)
    → OnOk (λ r'. start_try r' ≡ start_try r) (add_header (start_try r) name value)
unfolding start_try add_header insert_header_with_validation
start_try-add_header r name value = elim (Bool-cases (is_valid_name (to_lower name))) [
  | inl e ↦ rw e refl
  | inr e ↦ rw e tt
]

-- Removing a header by a name with an upper-case letter removes nothing that is to be sent, since
-- the names are kept in lower case.
pub remove_header-upper :
    (r : Request) (name i : Bytes)
    → IsWellFormed r
    → ¬ IsLower name
    → find i (get_headers (remove_header r name)) ≡ find i (get_headers r)
unfolding remove_header get_headers
remove_header-upper r name i w h =
    rw (erase-upper name r.headers w.0.1 h, erase-upper name r.retry_headers w.1.1 h) refl
