-- ===== src/Http/Url/Queries.antt =====
-- The query parameters in url.cpp: the loop of `AppendQueryParameters`, and parsing after printing.
use mathlib.Core.List.{append_assoc, append-nil}
use azure_sdk_for_cpp.Base.{
  ℕ, zero, suc, ◌≤◌, ◌≡◌, refl, sym, subst, ap, ◌∙◌, some, Bool, true, false, List, [], ◌∷◌, ◌++◌,
  ◌==◌, length, length-append, drop, Bytes, eqb_iff, before, before_trans, before_irrefl, until,
  from, Without, Stops, until-append, from-append, length-from-le, is_empty, is_empty-concat, arith,
  Bool-cases, inl, inr,
}
use azure_sdk_for_cpp.Dict.{assign, After, IsSorted}
use azure_sdk_for_cpp.Http.Url.{query_loop, print_queries, pop_back}

abbrev pub is_equals : ℕ → Bool
is_equals c = c == b'='

abbrev pub is_ampersand : ℕ → Bool
is_ampersand c = c == b'&'

drop-le : {n : ℕ} (s : Bytes) → length s ≤ n → length (drop 1 s) ≤ n
drop-le [] h = h
drop-le (c ∷ s) h = omega arith

after_first-lt : (p : ℕ → Bool) (c : ℕ) (s : Bytes) → length (drop 1 (from p (c ∷ s))) ≤ length s
after_first-lt p c s = elim (Bool-cases (p c)) [
  | inl e ↦ rw e (omega arith)
  | inr e ↦ rw e (drop-le (from p s) (length-from-le p s))
]

module _ (m : List (Bytes × Bytes)) where
  query_loop_nil : (fuel : ℕ) → query_loop fuel m [] ≡ some m
  unfolding query_loop
  query_loop_nil zero = refl
  query_loop_nil (suc fuel) = refl

-- The loop over a query string ends: with as many rounds as the string has bytes there is a result.
pub query_loop_ends :
    (fuel : ℕ) (m : List (Bytes × Bytes)) (s : Bytes)
    → length s ≤ fuel
    → (result : List (Bytes × Bytes)) × (query_loop fuel m s ≡ some result)
unfolding query_loop
query_loop_ends fuel m [] h = (m, query_loop_nil m fuel)
query_loop_ends zero m (c ∷ s) h = absurd (omega arith)
query_loop_ends (suc fuel) m (c ∷ s) h =
    let after_key = drop 1 (from is_equals (c ∷ s)) in
    let after_value = drop 1 (from is_ampersand after_key) in
    let shorter : length after_value ≤ length s =
      drop-le (from is_ampersand after_key)
        (omega (arith, length-from-le is_ampersand after_key, after_first-lt is_equals c s)) in
    query_loop_ends fuel (assign (until is_equals (c ∷ s)) (until is_ampersand after_key) m)
      after_value (omega arith)

module _ (m : List (Bytes × Bytes)) (k v t : Bytes) where
  is_empty-append : (c : ℕ) (s : Bytes) → is_empty (k ++ (c ∷ s)) ≡ false
  is_empty-append c s = nonempty k
    where
      nonempty : (l : Bytes) → is_empty (l ++ (c ∷ s)) ≡ false
      nonempty [] = refl
      nonempty (x ∷ l) = refl

  query_loop-step :
      (fuel : ℕ)
      → Without is_equals k
      → Without is_ampersand v
      → Stops is_ampersand t
      → query_loop (suc fuel) m (k ++ (b'=' ∷ (v ++ t))) ≡ query_loop fuel (assign k v m) (drop 1 t)
  unfolding query_loop
  query_loop-step fuel hk hv ht =
      rw
        (
          is_empty-append b'=' (v ++ t),
          until-append is_equals k (b'=' ∷ (v ++ t)) hk refl,
          from-append is_equals k (b'=' ∷ (v ++ t)) hk refl,
          until-append is_ampersand v t hv ht,
          from-append is_ampersand v t hv ht,
        )
        refl

-- `key1=value1&key2=value2`
abbrev pub joined : List (Bytes × Bytes) → Bytes
joined [] = []
joined ((k, v) ∷ []) = k ++ (b'=' ∷ (v ++ []))
joined ((k, v) ∷ q ∷ qs) = k ++ (b'=' ∷ (v ++ (b'&' ∷ joined (q ∷ qs))))

-- No key has a '=', and no value a '&'.
abbrev pub AreParameters : List (Bytes × Bytes) → Type 0
AreParameters [] = Unit {0}
AreParameters ((k, v) ∷ qs) = (Without is_equals k × Without is_ampersand v) × AreParameters qs

assign_all : List (Bytes × Bytes) → List (Bytes × Bytes) → List (Bytes × Bytes)
assign_all m [] = m
assign_all m ((k, v) ∷ qs) = assign_all (assign k v m) qs

query_loop-joined :
    (fuel : ℕ) (m qs : List (Bytes × Bytes))
    → length qs ≤ fuel
    → AreParameters qs
    → query_loop fuel m (joined qs) ≡ some (assign_all m qs)
unfolding assign_all
query_loop-joined fuel m [] h w = query_loop_nil m fuel
query_loop-joined zero m (q ∷ qs) h w = absurd (omega arith)
query_loop-joined (suc fuel) m ((k, v) ∷ []) h ((hk, hv), w) =
    query_loop-step m k v [] fuel hk hv tt ∙ query_loop_nil (assign k v m) fuel
query_loop-joined (suc fuel) m ((k, v) ∷ q ∷ qs) h ((hk, hv), w) =
    query_loop-step m k v (b'&' ∷ joined (q ∷ qs)) fuel hk hv refl
    ∙ query_loop-joined fuel (assign k v m) (q ∷ qs) (omega arith) w

length-joined : (qs : List (Bytes × Bytes)) → length qs ≤ length (joined qs)
length-joined [] = omega arith
length-joined ((k, v) ∷ []) = omega (arith, length-append k (b'=' ∷ (v ++ [])))
length-joined ((k, v) ∷ q ∷ qs) = omega (
  arith,
  length-append k (b'=' ∷ (v ++ (b'&' ∷ joined (q ∷ qs)))),
  length-append v (b'&' ∷ joined (q ∷ qs)),
  length-joined (q ∷ qs),
)

After-first :
    (j k : Bytes) (v : Bytes) (m qs : List (Bytes × Bytes))
    → After j (m ++ ((k, v) ∷ qs))
    → before j k ≡ true
After-first j k v [] qs a = a.0
After-first j k v ((i, w) ∷ m) qs a = After-first j k v m qs a.1

-- A key after all the others goes to the end.
assign-last :
    (k v : Bytes) (m qs : List (Bytes × Bytes))
    → IsSorted (m ++ ((k, v) ∷ qs))
    → assign k v m ≡ m ++ ((k, v) ∷ [])
unfolding assign
assign-last k v [] qs s = refl
assign-last k v ((j, w) ∷ m) qs s = ground (
  arith,
  After-first j k v m qs s.0,
  before_trans k j k,
  before_irrefl k,
  eqb_iff j k,
  assign-last k v m qs s.1,
)

assign_all-IsSorted : (m qs : List (Bytes × Bytes)) → IsSorted (m ++ qs) → assign_all m qs ≡ m ++ qs
unfolding assign_all
assign_all-IsSorted m [] s = sym (append-nil m)
assign_all-IsSorted m ((k, v) ∷ qs) s =
    let one = append_assoc m ((k, v) ∷ []) qs in
    rw (assign-last k v m qs s)
      (assign_all-IsSorted (m ++ ((k, v) ∷ [])) qs (subst IsSorted (sym one) s) ∙ one)

-- Sorted parameters, printed and read into an empty map, are the same.
pub query_loop-sorted :
    (fuel : ℕ) (qs : List (Bytes × Bytes))
    → length (joined qs) ≤ fuel
    → AreParameters qs
    → IsSorted qs
    → query_loop fuel [] (joined qs) ≡ some qs
query_loop-sorted fuel qs h w s =
    query_loop-joined fuel [] qs (omega (arith, length-joined qs)) w
    ∙ ap some (assign_all-IsSorted [] qs s)

-- The last byte goes.
pub pop_back-concat : (s : Bytes) (c : ℕ) → pop_back (s ++ (c ∷ [])) ≡ s
unfolding pop_back
pop_back-concat [] c = refl
pop_back-concat (x ∷ s) c = rw (is_empty-concat s c, pop_back-concat s c) refl

-- What is printed of parameters is what was joined, and an ampersand.
pub print_queries-joined :
    (q : Bytes × Bytes) (qs : List (Bytes × Bytes))
    → print_queries (q ∷ qs) ≡ joined (q ∷ qs) ++ (b'&' ∷ [])
unfolding print_queries
print_queries-joined (k, v) [] = simp (append_assoc, append-nil)
print_queries-joined (k, v) (q ∷ qs) =
    let e : joined ((k, v) ∷ q ∷ qs) ++ (b'&' ∷ [])
        ≡ k ++ (b'=' ∷ (v ++ (b'&' ∷ (joined (q ∷ qs) ++ (b'&' ∷ []))))) =
      simp append_assoc in
    ap (λ r. k ++ (b'=' ∷ (v ++ (b'&' ∷ r)))) (print_queries-joined q qs) ∙ sym e
