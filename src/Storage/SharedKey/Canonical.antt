-- ===== src/Storage/SharedKey/Canonical.antt =====
-- The headers of the storage service in the text that shared_key_policy.cpp signs.
use azure_sdk_for_cpp.Base.{
  ◌≡◌, refl, ◌∙◌, ap, true, false, List, [], ◌∷◌, if◌then◌else◌, Bytes, before, before_trans,
  before_irrefl, arith, Bool-cases, inl, inr,
}
use azure_sdk_for_cpp.Dict.{After, IsSorted}
use azure_sdk_for_cpp.Http.Headers.Lines.{AreLower, AreWellFormed}
use azure_sdk_for_cpp.Http.Url.Absolute.{to_lower-IsLower_lem}
use azure_sdk_for_cpp.Storage.SharedKey.{
  starts_with, ms_prefix, lower_bound, while_prefixed, insert_pair, sort_pairs,
  canonicalized_headers,
}

-- The headers with the prefix, wherever they stand.
unfoldable pub prefixed : Bytes → List (Bytes × Bytes) → List (Bytes × Bytes)
prefixed p [] = []
prefixed p ((k, v) ∷ m) = let rest = prefixed p m in if starts_with p k then (k, v) ∷ rest else rest

starts_with-before : (p k : Bytes) → before k p ≡ true → starts_with p k ≡ false
unfolding starts_with
starts_with-before [] [] h = cc
starts_with-before [] (y ∷ k) h = cc
starts_with-before (x ∷ p) [] h = refl
starts_with-before (x ∷ p) (y ∷ k) h = ground (arith, starts_with-before p k)

-- A key that comes after one without the prefix, which is not before the prefix, has it not either.
starts_with_past :
    (p k j : Bytes)
    → before k p ≡ false
    → starts_with p k ≡ false
    → before k j ≡ true
    → starts_with p j ≡ false
unfolding starts_with
starts_with_past [] k j h e b = absurd cc
starts_with_past (x ∷ p) [] j h e b = absurd cc
starts_with_past (x ∷ p) (y ∷ k) [] h e b = refl
starts_with_past (x ∷ p) (y ∷ k) (z ∷ j) h e b = ground (arith, starts_with_past p k j)

prefixed-After :
    (p k : Bytes) (m : List (Bytes × Bytes))
    → before k p ≡ false
    → starts_with p k ≡ false
    → After k m
    → prefixed p m ≡ []
unfolding prefixed
prefixed-After p k [] h e a = refl
prefixed-After p k ((j, v) ∷ m) h e (b, a) =
    let f = starts_with_past p k j h e b in rw f (prefixed-After p k m h e a)

not_before : (p k j : Bytes) → before k p ≡ false → before k j ≡ true → before j p ≡ false
not_before p k j h b = elim (Bool-cases (before j p)) [
  | inl c ↦ absurd (ground (arith, before_trans k j p b c))
  | inr c ↦ c
]

while_prefixed-prefixed :
    (p k : Bytes) (m : List (Bytes × Bytes))
    → before k p ≡ false
    → After k m
    → IsSorted m
    → AreLower m
    → while_prefixed p m ≡ prefixed p m
unfolding while_prefixed prefixed
while_prefixed-prefixed p k [] h a s l = refl
while_prefixed-prefixed p k ((j, v) ∷ m) h (b, a) (c, s) (d, l) =
    let g = not_before p k j h b in
    elim (Bool-cases (starts_with p j)) [
      | inl e ↦
          rw (e, to_lower-IsLower_lem j d) (ap (◌∷◌ (j, v)) (while_prefixed-prefixed p j m g c s l))
      | inr e ↦ rw (e, prefixed-After p j m g e c) refl
    ]

lower_bound-prefixed :
    (p : Bytes) (m : List (Bytes × Bytes))
    → IsSorted m
    → AreLower m
    → while_prefixed p (lower_bound p m) ≡ prefixed p m
unfolding lower_bound prefixed while_prefixed
lower_bound-prefixed p [] s l = refl
lower_bound-prefixed p ((k, v) ∷ m) (a, s) (d, l) = elim (Bool-cases (before k p)) [
  | inl b ↦ rw (b, starts_with-before p k b) (lower_bound-prefixed p m s l)
  | inr b ↦ elim (Bool-cases (starts_with p k)) [
    | inl e ↦
        rw (b, e, to_lower-IsLower_lem k d)
          (ap (◌∷◌ (k, v)) (while_prefixed-prefixed p k m b a s l))
    | inr e ↦ rw (b, e, prefixed-After p k m b e a) refl
  ]
]

After-prefixed : (p k : Bytes) (m : List (Bytes × Bytes)) → After k m → After k (prefixed p m)
unfolding prefixed
After-prefixed p k [] a = tt
After-prefixed p k ((j, v) ∷ m) (b, a) = elim (Bool-cases (starts_with p j)) [
  | inl e ↦ rw e (b, After-prefixed p k m a)
  | inr e ↦ rw e (After-prefixed p k m a)
]

prefixed-IsSorted : (p : Bytes) (m : List (Bytes × Bytes)) → IsSorted m → IsSorted (prefixed p m)
unfolding prefixed
prefixed-IsSorted p [] s = tt
prefixed-IsSorted p ((j, v) ∷ m) (a, s) = elim (Bool-cases (starts_with p j)) [
  | inl e ↦ rw e (After-prefixed p j m a, prefixed-IsSorted p m s)
  | inr e ↦ rw e (prefixed-IsSorted p m s)
]

-- What has its keys in order is sorted.
sort_pairs-IsSorted_lem : (m : List (Bytes × Bytes)) → IsSorted m → sort_pairs m ≡ m
unfolding sort_pairs insert_pair
sort_pairs-IsSorted_lem [] s = refl
sort_pairs-IsSorted_lem ((k, v) ∷ []) s = refl
sort_pairs-IsSorted_lem ((k, v) ∷ (j, w) ∷ m) ((b, a), s) =
    let c : before j k ≡ false = elim (Bool-cases (before j k)) [
      | inl d ↦ absurd (ground (arith, before_trans k j k b d, before_irrefl k))
      | inr d ↦ d
    ] in
    ap (insert_pair (k, v)) (sort_pairs-IsSorted_lem ((j, w) ∷ m) s) ∙ rw (insert_pair, c, b) refl

-- The headers of the service that are signed, found by a search for the first one and taken up to the
-- first one without the prefix, in lower case and sorted, are the headers with the prefix in the order
-- in which the request has them, provided that it has its headers in order with names in lower case.
pub canonicalized_headers-prefixed :
    (headers : List (Bytes × Bytes))
    → AreWellFormed headers
    → canonicalized_headers headers ≡ prefixed ms_prefix headers
unfolding canonicalized_headers
canonicalized_headers-prefixed headers (s, l) =
    ap sort_pairs (lower_bound-prefixed ms_prefix headers s l)
    ∙ sort_pairs-IsSorted_lem (prefixed ms_prefix headers) (prefixed-IsSorted ms_prefix headers s)
