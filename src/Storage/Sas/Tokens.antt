-- ===== src/Storage/Sas/Tokens.antt =====
-- A token as it is made and as it is read: the parameters of the URL that it is appended to.
pub mod Values
pub mod Reader
pub mod BlobReader
pub mod DelegationReader
pub mod PathReader
pub mod PathLetters
pub mod Accounts
pub mod Blobs
pub mod Paths
pub mod Shares
use azure_sdk_for_cpp.Base.{
  ℕ, zero, suc, ◌/◌, ◌%◌, ◌<◌, ◌≤◌, ◌≡◌, refl, sym, ap, ap₂, ◌∙◌, Bool, true, false, not, ◌&&◌,
  ◌||◌, List, [], ◌∷◌, ◌++◌, Option, none, some, ◌==◌, if◌then◌else◌, Bytes, AreBytes, codes, eqb,
  eqb_iff, eqb_refl, before, length, Without, none_passes, none_passes-Without, arith, Bool-cases,
  inl, inr, ok, is_empty,
}
use native.Mathlib.Nat.{le_refl}
use azure_sdk_for_cpp.Dict.{find, assign, IsSorted}
use azure_sdk_for_cpp.Dict.Laws.{find-assign, assign-IsSorted}
use azure_sdk_for_cpp.Http.Url.{
  Url, encode, decode, contains, hex_digit, is_default_non_encoded, append_query_parameter,
  append_query_parameters, get_absolute_url, query_loop, loop_result,
}
use azure_sdk_for_cpp.Http.Url.Codec.{decode-encode}
use azure_sdk_for_cpp.Http.Url.Queries.{
  is_equals, is_ampersand, AreParameters, joined, query_loop-sorted,
}
use azure_sdk_for_cpp.Http.Url.Absolute.{get_relative_url-joined}
use azure_sdk_for_cpp.Storage.Sas.{remove_if, url_encode_query_parameter, append_values, empty_url}

-- The parameters after the calls of `AppendQueryParameter`.
unfoldable pub assign_values :
    List (Bytes × Option Bytes) → List (Bytes × Bytes) → List (Bytes × Bytes)
assign_values [] m = m
assign_values ((key, none) ∷ values) m = assign_values values m
assign_values ((key, some value) ∷ values) m =
    assign_values values (assign key (url_encode_query_parameter value) m)

append_values-assign_values :
    (values : List (Bytes × Option Bytes)) (u : Url)
    → append_values values u
      ≡ record u { encoded_query_parameters = assign_values values u.encoded_query_parameters }
unfolding append_values assign_values append_query_parameter
append_values-assign_values [] u = refl
append_values-assign_values ((key, none) ∷ values) u = append_values-assign_values values u
append_values-assign_values ((key, some value) ∷ values) u =
    append_values-assign_values values
      (append_query_parameter u key (url_encode_query_parameter value))

-- Bytes, and no ampersand, which the encoding leaves as it is.
abbrev pub IsValue : Bytes → Type 0
IsValue v = AreBytes v × Without is_ampersand v

abbrev pub AreValues : List (Bytes × Option Bytes) → Type 0
AreValues [] = Unit {0}
AreValues ((key, none) ∷ values) = AreValues values
AreValues ((key, some value) ∷ values) = IsValue value × AreValues values

hex_digit-ampersand : (v : ℕ) → v < 16 → is_ampersand (hex_digit v) ≡ false
hex_digit-ampersand v p = ground arith

encode-Without : (keep s : Bytes) → Without is_ampersand s → Without is_ampersand (encode keep s)
unfolding encode
encode-Without keep [] w = tt
encode-Without keep (c ∷ s) w =
    elim (Bool-cases (not (is_default_non_encoded c) && not (contains keep c))) [
      | inl e ↦ rw e (
        refl,
        (
          hex_digit-ampersand (c / 16 % 16) (omega arith),
          (hex_digit-ampersand (c % 16) (omega arith), encode-Without keep s w.1),
        ),
      )
      | inr e ↦ rw e (w.0, encode-Without keep s w.1)
    ]

assign-AreParameters :
    (k v : Bytes) (m : List (Bytes × Bytes))
    → Without is_equals k
    → Without is_ampersand v
    → AreParameters m
    → AreParameters (assign k v m)
unfolding assign
assign-AreParameters k v [] p q a = ((p, q), tt)
assign-AreParameters k v ((j, w) ∷ m) p q a = elim (Bool-cases (before k j)) [
  | inl e ↦ rw e ((p, q), a)
  | inr e ↦ elim (Bool-cases (eqb j k)) [
    | inl f ↦ rw (e, f) ((p, q), a.1)
    | inr f ↦ rw (e, f) (a.0, assign-AreParameters k v m p q a.1)
  ]
]

-- No key has an equals sign, or stands a second time.
unfoldable pub apart : Bytes → List (Bytes × Option Bytes) → Bool
apart k [] = true
apart k ((j, o) ∷ values) = not (eqb j k) && apart k values

unfoldable pub have_keys : List (Bytes × Option Bytes) → Bool
have_keys [] = true
have_keys ((k, o) ∷ values) = none_passes is_equals k && (apart k values && have_keys values)

and-left : (a b : Bool) → a && b ≡ true → a ≡ true
and-left a b e = ground arith

and-right : (a b : Bool) → a && b ≡ true → b ≡ true
and-right a b e = ground arith

not-true : (a : Bool) → not a ≡ true → a ≡ false
not-true a e = ground arith

assign_values-AreParameters :
    (values : List (Bytes × Option Bytes)) (m : List (Bytes × Bytes))
    → have_keys values ≡ true
    → AreValues values
    → AreParameters m
    → AreParameters (assign_values values m)
unfolding assign_values have_keys url_encode_query_parameter
assign_values-AreParameters [] m e w a = a
assign_values-AreParameters ((k, none) ∷ values) m e w a =
    assign_values-AreParameters values m (and-right _ _ (and-right _ _ e)) w a
assign_values-AreParameters ((k, some v) ∷ values) m e w a =
    assign_values-AreParameters values (assign k (url_encode_query_parameter v) m)
      (and-right _ _ (and-right _ _ e)) w.1
      (assign-AreParameters k (url_encode_query_parameter v) m
        (none_passes-Without is_equals k (and-left _ _ e)) (encode-Without _ v w.0.1) a)

assign_values-IsSorted :
    (values : List (Bytes × Option Bytes)) (m : List (Bytes × Bytes))
    → IsSorted m
    → IsSorted (assign_values values m)
unfolding assign_values
assign_values-IsSorted [] m s = s
assign_values-IsSorted ((k, none) ∷ values) m s = assign_values-IsSorted values m s
assign_values-IsSorted ((k, some v) ∷ values) m s =
    assign_values-IsSorted values (assign k (url_encode_query_parameter v) m)
      (assign-IsSorted k (url_encode_query_parameter v) m s)

-- The text of a URL that has parameters only, read as parameters.
read_question :
    (v : Url) (qs : List (Bytes × Bytes))
    → v.encoded_query_parameters ≡ []
    → AreParameters qs
    → IsSorted qs
    → (append_query_parameters v (
        get_absolute_url
          (record empty_url { encoded_query_parameters = qs }))).encoded_query_parameters
      ≡ qs
unfolding append_query_parameters get_absolute_url query_loop
read_question v [] n a s =
    rw (get_relative_url-joined (record empty_url { encoded_query_parameters = [] })) n
read_question v (q ∷ qs) n a s =
    rw (get_relative_url-joined (record empty_url { encoded_query_parameters = q ∷ qs }), n)
      (ap (loop_result []) (query_loop-sorted (length (joined (q ∷ qs))) (q ∷ qs) (le_refl _) a s))

-- A key that is not assigned keeps its value.
find-assign_values-apart :
    (k : Bytes) (values : List (Bytes × Option Bytes)) (m : List (Bytes × Bytes))
    → apart k values ≡ true
    → find k (assign_values values m) ≡ find k m
unfolding assign_values apart
find-assign_values-apart k [] m e = refl
find-assign_values-apart k ((j, none) ∷ values) m e =
    find-assign_values-apart k values m (and-right _ _ e)
find-assign_values-apart k ((j, some v) ∷ values) m e =
    let other : eqb j k ≡ false = not-true (eqb j k) (and-left _ _ e) in
    find-assign_values-apart k values (assign j (url_encode_query_parameter v) m) (and-right _ _ e)
    ∙ find-assign j k (url_encode_query_parameter v) m
    ∙ rw other refl

-- What a reader finds: for a value that was given the text that decodes to it, and nothing for one
-- that was left out.
abbrev pub Finds : List (Bytes × Bytes) → Bytes → Option Bytes → Type 0
Finds m k none = find k m ≡ none
Finds m k (some v) = (e : Bytes) × (find k m ≡ some e) × (decode e ≡ ok v)

abbrev pub FindsAll : List (Bytes × Bytes) → List (Bytes × Option Bytes) → Type 0
FindsAll m [] = Unit {0}
FindsAll m ((k, o) ∷ values) = Finds m k o × FindsAll m values

-- No key of the values is there yet.
AreNew : List (Bytes × Option Bytes) → List (Bytes × Bytes) → Type 0
AreNew [] m = Unit {0}
AreNew ((k, o) ∷ values) m = (find k m ≡ none) × AreNew values m

AreNew-nil : (values : List (Bytes × Option Bytes)) → AreNew values []
unfolding AreNew find
AreNew-nil [] = tt
AreNew-nil ((k, o) ∷ values) = (refl, AreNew-nil values)

eqb_other : (j k : Bytes) → eqb j k ≡ false → eqb k j ≡ false
eqb_other j k e = ground (arith, eqb_iff j k, eqb_iff k j)

AreNew-assign :
    (k v : Bytes) (values : List (Bytes × Option Bytes)) (m : List (Bytes × Bytes))
    → apart k values ≡ true
    → AreNew values m
    → AreNew values (assign k v m)
unfolding AreNew apart
AreNew-assign k v [] m e n = tt
AreNew-assign k v ((j, o) ∷ values) m e n =
    let other : eqb j k ≡ false = not-true (eqb j k) (and-left _ _ e) in
    (
      find-assign k j v m ∙ rw (eqb_other j k other) n.0,
      AreNew-assign k v values m (and-right _ _ e) n.1,
    )

decode-url_encode : (v : Bytes) → AreBytes v → decode (url_encode_query_parameter v) ≡ ok v
unfolding url_encode_query_parameter remove_if contains
decode-url_encode v b = decode-encode _ v refl refl b

assign_values-FindsAll :
    (values : List (Bytes × Option Bytes)) (m : List (Bytes × Bytes))
    → have_keys values ≡ true
    → AreValues values
    → AreNew values m
    → FindsAll (assign_values values m) values
unfolding assign_values have_keys AreNew
assign_values-FindsAll [] m e w n = tt
assign_values-FindsAll ((k, none) ∷ values) m e w n = (
  find-assign_values-apart k values m (and-left _ _ (and-right _ _ e)) ∙ n.0,
  assign_values-FindsAll values m (and-right _ _ (and-right _ _ e)) w n.1,
)
assign_values-FindsAll ((k, some v) ∷ values) m e w n =
    let encoded = url_encode_query_parameter v in
    let separate = and-left _ _ (and-right _ _ e) in
    let found : find k (assign_values values (assign k encoded m)) ≡ some encoded =
      find-assign_values-apart k values (assign k encoded m) separate
      ∙ find-assign k k encoded m
      ∙ rw (eqb_refl k) refl in
    (
      (encoded, found, decode-url_encode v w.0.0),
      assign_values-FindsAll values (assign k encoded m) (and-right _ _ (and-right _ _ e)) w.1
          (AreNew-assign k encoded values m separate n.1),
    )

-- A token appended to a URL without parameters is read as the values that it was made of, for values
-- without an ampersand.
pub append_values-FindsAll :
    (values : List (Bytes × Option Bytes)) (v : Url)
    → have_keys values ≡ true
    → AreValues values
    → v.encoded_query_parameters ≡ []
    → FindsAll
        (append_query_parameters v
          (get_absolute_url (append_values values empty_url))).encoded_query_parameters
        values
append_values-FindsAll values v e w n =
    let qs = assign_values values [] in
    rw
      (
        append_values-assign_values values empty_url,
        read_question v qs n (assign_values-AreParameters values [] e w tt)
            (assign_values-IsSorted values [] tt),
      )
      (assign_values-FindsAll values [] e w (AreNew-nil values))
