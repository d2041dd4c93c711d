-- ===== src/Storage/Credential/Pairs.antt =====
-- The pairs of a connection string, printed and read again.
use mathlib.Core.List.{append-nil}
use azure_sdk_for_cpp.Base.{
  ℕ, zero, suc, ◌≤◌, ◌<◌, ◌≡◌, refl, ◌∙◌, sym, ap, false, List, [], ◌∷◌, ◌++◌, length,
  length-append, drop, Bytes, Without, Stops, until-append, from-append, is_empty, arith,
}
use azure_sdk_for_cpp.Dict.{assign}
use azure_sdk_for_cpp.Storage.Credential.{
  is_equals_sign, is_semicolon, pairs_loop, connection_string_map,
}

-- Each pair with its equals sign, and semicolons between them.
unfoldable pub print_pairs : List (Bytes × Bytes) → Bytes
print_pairs [] = []
print_pairs ((k, v) ∷ []) = k ++ (b'=' ∷ v)
print_pairs ((k, v) ∷ q ∷ m) = k ++ (b'=' ∷ v ++ (b';' ∷ print_pairs (q ∷ m)))

-- The pairs assigned one after another.
unfoldable pub assign_all : List (Bytes × Bytes) → List (Bytes × Bytes) → List (Bytes × Bytes)
assign_all m [] = m
assign_all m ((k, v) ∷ qs) = assign_all (assign k v m) qs

-- No key has an equals sign, no value a semicolon, and no key is empty.
abbrev pub ArePairs : List (Bytes × Bytes) → Type 0
ArePairs [] = Unit {0}
ArePairs ((k, v) ∷ qs) =
    ((Without is_equals_sign k × (is_empty k ≡ false)) × Without is_semicolon v) × ArePairs qs

-- A round of the loop over a pair, and what comes after it.
pairs_loop-pair :
    (fuel : ℕ) (m : List (Bytes × Bytes)) (k v rest : Bytes)
    → Without is_equals_sign k
    → is_empty k ≡ false
    → Without is_semicolon v
    → Stops is_semicolon rest
    → pairs_loop (suc fuel) m (k ++ (b'=' ∷ v ++ rest))
      ≡ pairs_loop fuel (assign k v m) (drop 1 rest)
unfolding pairs_loop
pairs_loop-pair fuel m [] v rest wk ne wv stop = absurd cc
pairs_loop-pair fuel m (c ∷ k) v rest wk ne wv stop =
    rw
      (
        pairs_loop,
        until-append is_equals_sign (c ∷ k) (b'=' ∷ v ++ rest) wk refl,
        from-append is_equals_sign (c ∷ k) (b'=' ∷ v ++ rest) wk refl,
        until-append is_semicolon v rest wv stop,
        from-append is_semicolon v rest wv stop,
      )
      refl

pairs_loop_nil : (fuel : ℕ) (m : List (Bytes × Bytes)) → pairs_loop fuel m [] ≡ m
unfolding pairs_loop
pairs_loop_nil zero m = refl
pairs_loop_nil (suc fuel) m = refl

-- A pair takes more bytes than the rest.
length-pair : (k v rest : Bytes) → length rest < length (k ++ (b'=' ∷ v ++ rest))
length-pair k v rest = omega (arith, length-append k (b'=' ∷ v ++ rest), length-append v rest)

pairs_loop-print_pairs :
    (fuel : ℕ) (m qs : List (Bytes × Bytes))
    → ArePairs qs
    → length (print_pairs qs) ≤ fuel
    → pairs_loop fuel m (print_pairs qs) ≡ assign_all m qs
unfolding pairs_loop print_pairs assign_all
pairs_loop-print_pairs zero m [] w le = refl
pairs_loop-print_pairs (suc fuel) m [] w le = refl
pairs_loop-print_pairs zero m ((k, v) ∷ []) w le =
    absurd (omega (arith, length-append k (b'=' ∷ v)))
pairs_loop-print_pairs zero m ((k, v) ∷ q ∷ qs) w le =
    absurd (let l = length-pair k v (b';' ∷ print_pairs (q ∷ qs)) in omega arith)
pairs_loop-print_pairs (suc fuel) m ((k, v) ∷ []) (((wk, ne), wv), w) le =
    ap (λ x. pairs_loop (suc fuel) m (k ++ (b'=' ∷ x))) (sym (append-nil v))
    ∙ (pairs_loop-pair fuel m k v [] wk ne wv tt ∙ pairs_loop_nil fuel (assign k v m))
pairs_loop-print_pairs (suc fuel) m ((k, v) ∷ q ∷ qs) (((wk, ne), wv), w) le =
    pairs_loop-pair fuel m k v (b';' ∷ print_pairs (q ∷ qs)) wk ne wv refl
    ∙ pairs_loop-print_pairs fuel (assign k v m) (q ∷ qs) w
        (let l = length-pair k v (b';' ∷ print_pairs (q ∷ qs)) in omega arith)

-- The pairs of a printed connection string are read in their order, the last one of a key counting, if no
-- key is empty or has an equals sign and no value has a semicolon. A value may have equals signs.
pub connection_string_map-print_pairs :
    (qs : List (Bytes × Bytes))
    → ArePairs qs
    → connection_string_map (print_pairs qs) ≡ assign_all [] qs
unfolding connection_string_map
connection_string_map-print_pairs qs w =
    pairs_loop-print_pairs (length (print_pairs qs)) [] qs w (omega arith)
