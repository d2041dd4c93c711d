-- ===== src/Http/Url/Absolute.antt =====
-- The constructor of `Url` after `GetAbsoluteUrl`, in url.cpp.
use mathlib.Core.List.{append_assoc, append-nil}
use azure_sdk_for_cpp.Base.{
  ℕ, ◌<◌, ◌≡◌, refl, sym, ap, ◌∙◌, Bool, true, false, not, ◌||◌, List, [], ◌∷◌, ◌++◌, some, le→leb,
  ◌==◌, if◌then◌else◌, length, drop, Bytes, codes, until, Without, Stops, until-append, from-append,
  is_decimal, to_decimal, decimal-to_decimal, Without-to_decimal, is_empty-to_decimal, is_empty,
  arith, Bool-cases, ==_iff, inl, inr, ok,
}
use azure_sdk_for_cpp.Strings.{to_lower, to_lower_char, IsLower}
use azure_sdk_for_cpp.Dict.{IsSorted}
use azure_sdk_for_cpp.Http.Url.{
  loop_result, Url, skip_first, append_query_parameters, find_scheme, ends_host, parse_port,
  starts_with_byte, parse_optional_port, parse_tail, parse_authority, parse, print_queries,
  pop_back, get_relative_url, get_absolute_url,
}
use azure_sdk_for_cpp.Http.Url.Queries.{
  joined, AreParameters, query_loop-sorted, print_queries-joined, pop_back-concat,
}

-- The parameters as they stand in a URL, after a question mark.
abbrev question : List (Bytes × Bytes) → Bytes
question [] = []
question (q ∷ qs) = b'?' ∷ joined (q ∷ qs)

pub get_relative_url-joined :
    (u : Url) → get_relative_url u ≡ u.encoded_path ++ question u.encoded_query_parameters
unfolding get_relative_url print_queries
get_relative_url-joined u = go u.encoded_path u.encoded_query_parameters
  where
    go :
        (path : Bytes) (qs : List (Bytes × Bytes))
        → pop_back (path ++ (b'?' ∷ print_queries qs)) ≡ path ++ question qs
    go path [] = pop_back-concat path b'?' ∙ sym (append-nil path)
    go path (q ∷ qs) =
        ap (λ s. pop_back (path ++ (b'?' ∷ s))) (print_queries-joined q qs)
        ∙ ap pop_back (sym (append_assoc path (b'?' ∷ joined (q ∷ qs)) (b'&' ∷ [])))
        ∙ pop_back-concat (path ++ (b'?' ∷ joined (q ∷ qs))) b'&'

find_scheme-plain :
    (c : ℕ) (s before after : Bytes)
    → (c == b':') ≡ false
    → find_scheme s ≡ some (before, after)
    → find_scheme (c ∷ s) ≡ some (c ∷ before, after)
unfolding find_scheme
find_scheme-plain c [] before after p h = cc
find_scheme-plain c (d ∷ []) before after p h = cc
find_scheme-plain c (d ∷ e ∷ s) before after p h = rw (p, h) refl

abbrev is_colon : ℕ → Bool
is_colon c = c == b':'

find_scheme-append :
    (scheme rest : Bytes)
    → Without is_colon scheme
    → find_scheme (scheme ++ (codes "://" ++ rest)) ≡ some (scheme, rest)
unfolding find_scheme
find_scheme-append [] rest w = refl
find_scheme-append (c ∷ s) rest w =
    find_scheme-plain c (s ++ (codes "://" ++ rest)) s rest w.0 (find_scheme-append s rest w.1)

pub to_lower-IsLower_lem : (s : Bytes) → IsLower s → to_lower s ≡ s
unfolding to_lower to_lower_char
to_lower-IsLower_lem [] h = refl
to_lower-IsLower_lem (c ∷ s) h = rw h.0 (ap (◌∷◌ c) (to_lower-IsLower_lem s h.1))

-- What may follow the host and the port.
abbrev IsTail : Bytes → Type 0
IsTail [] = Unit {0}
IsTail (c ∷ s) = (c == b'/' || c == b'?') ≡ true

abbrev print_port : ℕ → Bytes
print_port port = if port == 0 then [] else b':' ∷ to_decimal 5 port

IsTail-accepted :
    (t : Bytes)
    → IsTail t
    → (is_empty t || starts_with_byte b'/' t || starts_with_byte b'?' t) ≡ true
IsTail-accepted [] h = refl
IsTail-accepted (c ∷ t) h = h

IsTail-Stops_host : (t : Bytes) → IsTail t → Stops ends_host t
IsTail-Stops_host [] h = tt
IsTail-Stops_host (c ∷ t) h = ground arith

IsTail-Stops_port : (t : Bytes) → IsTail t → Stops (λ c. not (is_decimal c)) t
IsTail-Stops_port [] h = tt
IsTail-Stops_port (c ∷ t) h = ground arith

IsTail-colon : (t : Bytes) → IsTail t → starts_with_byte b':' t ≡ false
IsTail-colon [] h = refl
IsTail-colon (c ∷ t) h = ground arith

print_port-Stops : (port : ℕ) (t : Bytes) → IsTail t → Stops ends_host (print_port port ++ t)
print_port-Stops port t h = elim (Bool-cases (port == 0)) [
  | inl e ↦ rw e (IsTail-Stops_host t h)
  | inr e ↦ rw e refl
]

parse_port-to_decimal :
    (port : ℕ) (t : Bytes)
    → port < 65536
    → IsTail t
    → parse_port (to_decimal 5 port ++ t) ≡ ok (port, t)
unfolding parse_port
parse_port-to_decimal port t h k =
    let p = Without-to_decimal 5 port in
    let q = IsTail-Stops_port t k in
    rw
      (
        until-append _ (to_decimal 5 port) t p q,
        from-append _ (to_decimal 5 port) t p q,
        is_empty-to_decimal 4 port,
        decimal-to_decimal 5 port (omega arith),
        le→leb port 2_147_483_647 (omega arith),
        le→leb port 65535 (omega arith),
      )
      refl

parse_optional_port-print :
    (port : ℕ) (t : Bytes)
    → port < 65536
    → IsTail t
    → parse_optional_port (print_port port ++ t) ≡ ok (port, t)
unfolding parse_optional_port
parse_optional_port-print port t h k = elim (Bool-cases (port == 0)) [
  | inl e ↦ rw (e, IsTail-colon t k) (ap (λ p. ok (p, t)) (sym ((==_iff port 0).0 e)))
  | inr e ↦ rw e (parse_port-to_decimal port t h k)
]

abbrev is_question : ℕ → Bool
is_question c = c == b'?'

abbrev is_hash : ℕ → Bool
is_hash c = c == b'#'

until-all : (p : ℕ → Bool) (s : Bytes) → Without p s → until p s ≡ s
until-all p [] w = refl
until-all p (c ∷ s) w = rw w.0 (ap (◌∷◌ c) (until-all p s w.1))

-- A URL as it is printed and read: a scheme in lower case, delimiters only where they delimit, and
-- the parameters in the order of their keys.
pub record IsWellFormed (u : Url) : Type 0 where
  pub scheme_present : is_empty u.scheme ≡ false
  pub scheme_lower : IsLower u.scheme
  pub scheme_colon : Without is_colon u.scheme
  pub host_ends : Without ends_host u.host
  pub port_lt : u.port < 65536
  pub path_ends : Without is_question u.encoded_path
  pub parameters : AreParameters u.encoded_query_parameters
  pub parameters_sorted : IsSorted u.encoded_query_parameters
  pub parameters_start : starts_with_byte b'?' (joined u.encoded_query_parameters) ≡ false
  pub no_fragment : Without is_hash (joined u.encoded_query_parameters)

skip_first-plain : (s : Bytes) → starts_with_byte b'?' s ≡ false → skip_first b'?' s ≡ s
skip_first-plain [] h = refl
skip_first-plain (c ∷ s) h = rw h refl

module _ (scheme host : Bytes) (port : ℕ) where
  url_of : Bytes → List (Bytes × Bytes) → Url
  url_of path qs = record {
    scheme = scheme;
    host = host;
    port = port;
    encoded_path = path;
    encoded_query_parameters = qs;
  }

  -- The query, with or without a path before it.
  read_question :
      (path : Bytes) (qs : List (Bytes × Bytes))
      → AreParameters qs
      → IsSorted qs
      → starts_with_byte b'?' (joined qs) ≡ false
      → Without is_hash (joined qs)
      → (if starts_with_byte b'?' (question qs)
          then append_query_parameters (url_of path []) (until is_hash (drop 1 (question qs)))
          else url_of path [])
        ≡ url_of path qs
  unfolding append_query_parameters url_of
  read_question path [] w s h f = refl
  read_question path (q ∷ qs) w s h f =
      let e : until is_hash (joined (q ∷ qs)) ≡ joined (q ∷ qs) =
        until-all is_hash (joined (q ∷ qs)) f in
      rw (e, skip_first-plain (joined (q ∷ qs)) h)
        (ap (λ o. url_of path (loop_result [] o))
          (query_loop-sorted (length (joined (q ∷ qs))) (q ∷ qs) (omega arith) w s))

  question-Stops : (qs : List (Bytes × Bytes)) → Stops is_question (question qs)
  question-Stops [] = tt
  question-Stops (q ∷ qs) = refl

  -- The path and the query, as they are printed.
  abbrev tail_of : Bytes → List (Bytes × Bytes) → Bytes
  tail_of path qs = (if is_empty path then [] else codes "/") ++ (path ++ question qs)

  parse_tail-tail_of :
      (path : Bytes) (qs : List (Bytes × Bytes))
      → Without is_question path
      → AreParameters qs
      → IsSorted qs
      → starts_with_byte b'?' (joined qs) ≡ false
      → Without is_hash (joined qs)
      → parse_tail scheme host port (tail_of path qs) ≡ url_of path qs
  unfolding parse_tail url_of
  parse_tail-tail_of [] [] p w s h f = refl
  parse_tail-tail_of [] (q ∷ qs) p w s h f = read_question [] (q ∷ qs) w s h f
  parse_tail-tail_of (c ∷ path) qs p w s h f =
      rw
        (
          until-append is_question (c ∷ path) (question qs) p (question-Stops qs),
          from-append is_question (c ∷ path) (question qs) p (question-Stops qs),
        )
        (read_question (c ∷ path) qs w s h f)

  tail_of-IsTail : (path : Bytes) (qs : List (Bytes × Bytes)) → IsTail (tail_of path qs)
  tail_of-IsTail [] [] = tt
  tail_of-IsTail [] (q ∷ qs) = refl
  tail_of-IsTail (c ∷ path) qs = refl

  parse_authority-print :
      (path : Bytes) (qs : List (Bytes × Bytes))
      → Without ends_host host
      → port < 65536
      → parse_tail scheme host port (tail_of path qs) ≡ url_of path qs
      → parse_authority scheme (host ++ (print_port port ++ tail_of path qs)) ≡ ok (url_of path qs)
  unfolding parse_authority
  parse_authority-print path qs hh hp e =
      let t = tail_of path qs in
      let k = tail_of-IsTail path qs in
      rw
        (
          until-append ends_host host (print_port port ++ t) hh (print_port-Stops port t k),
          from-append ends_host host (print_port port ++ t) hh (print_port-Stops port t k),
          parse_optional_port-print port t hp k,
          IsTail-accepted t k,
          e,
        )
        refl

-- A well-formed URL, printed in full and parsed again, is the same URL.
pub parse-get_absolute_url : (u : Url) → IsWellFormed u → parse (get_absolute_url u) ≡ ok u
unfolding parse get_absolute_url url_of
parse-get_absolute_url u w =
    rw
      (
        get_relative_url-joined u,
        w.scheme_present,
        append_assoc u.scheme (codes "://"),
        find_scheme-append u.scheme _ w.scheme_colon,
        parse,
        to_lower-IsLower_lem u.scheme w.scheme_lower,
      )
      (parse_authority-print u.scheme u.host u.port u.encoded_path u.encoded_query_parameters
        w.host_ends w.port_lt
        (parse_tail-tail_of u.scheme u.host u.port u.encoded_path u.encoded_query_parameters
          w.path_ends w.parameters w.parameters_sorted w.parameters_start w.no_fragment))
