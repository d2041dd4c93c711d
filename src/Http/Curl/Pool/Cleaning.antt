-- ===== src/Http/Curl/Pool/Cleaning.antt =====
-- What the cleaner of the pool of curl.cpp removes: the connections that are expired.
use mathlib.Core.List.{append-nil}
use azure_sdk_for_cpp.Base.{
  ℕ, suc, ◌+◌, ◌-◌, ◌≤◌, ◌≡◌, refl, ◌∙◌, ap, Bool, true, false, not, List, [], ◌∷◌, ◌++◌,
  if◌then◌else◌, length, Bytes, arith, Bool-cases, inl, inr,
}
use azure_sdk_for_cpp.Http.Curl.Pool.Index.{size, Every}
use azure_sdk_for_cpp.Http.Curl.Pool.{
  CurlConnection, is_expired, expired_milliseconds, reverse_onto, clean_back, clean_list,
  clean_index,
}

-- The elements that pass a test.
unfoldable pub keep {ℓ} : {A : Type ℓ} → (A → Bool) → List A → List A
keep test [] = []
keep test (x ∷ xs) = let rest = keep test xs in if test x then x ∷ rest else rest

reverse_onto-reverse_onto {ℓ} :
    {A : Type ℓ} (xs ys zs : List A)
    → reverse_onto (reverse_onto xs ys) zs ≡ reverse_onto ys (xs ++ zs)
unfolding reverse_onto
reverse_onto-reverse_onto [] ys zs = refl
reverse_onto-reverse_onto (x ∷ xs) ys zs = reverse_onto-reverse_onto xs (x ∷ ys) zs

module _ {H : Type 0} where
  -- The connections were used before `time`, the first of them last.
  unfoldable pub Recent : ℕ → List (CurlConnection H) → Type 0
  Recent time [] = Unit
  Recent time (c ∷ cs) = (c.last_use_time ≤ time) × Recent c.last_use_time cs

  pub Recent-weaken :
      (time later : ℕ) (cs : List (CurlConnection H))
      → time ≤ later
      → Recent time cs
      → Recent later cs
  unfolding Recent
  Recent-weaken time later [] le r = tt
  Recent-weaken time later (c ∷ cs) le (l, r) = (omega arith, r)

  abbrev pub is_live : ℕ → CurlConnection H → Bool
  is_live now c = not (is_expired now c)

  expired_time :
      (now : ℕ) (c : CurlConnection H)
      → is_expired now c ≡ true
      → expired_milliseconds ≤ now - c.last_use_time
  unfolding is_expired
  expired_time now c e = ground arith

  -- Where the first one is expired, so are the others.
  pub all_expired :
      (now time : ℕ) (cs : List (CurlConnection H))
      → Recent time cs
      → expired_milliseconds ≤ now - time
      → keep (is_live now) cs ≡ []
  unfolding keep Recent is_expired
  all_expired now time [] r le = refl
  all_expired now time (c ∷ cs) (l, r) le = ground (arith, all_expired now c.last_use_time cs r)

  pub keep-Recent :
      (now time : ℕ) (cs : List (CurlConnection H))
      → Recent time cs
      → Recent time (keep (is_live now) cs)
  unfolding keep Recent
  keep-Recent now time [] r = tt
  keep-Recent now time (c ∷ cs) (l, r) = elim (Bool-cases (is_live now c)) [
    | inl e ↦ rw e (l, keep-Recent now c.last_use_time cs r)
    | inr e ↦ rw e (
        Recent-weaken c.last_use_time time (keep (is_live now) cs) l
          (keep-Recent now c.last_use_time cs r))
  ]

  length-keep :
      (now : ℕ) (cs : List (CurlConnection H)) → length (keep (is_live now) cs) ≤ length cs
  unfolding keep
  length-keep now [] = omega arith
  length-keep now (c ∷ cs) = ground (arith, length-keep now cs)

  -- What the loop from the back comes to, by what is live of the connections that it goes over first.
  outcome :
      ℕ → ℕ → List (CurlConnection H) → ℕ → List (CurlConnection H) → List (CurlConnection H) × ℕ
  outcome now counter front n [] = clean_back now (counter - n) front
  outcome now counter front n (c ∷ cs) =
      (reverse_onto (c ∷ cs) front, counter - (n - suc (length cs)))

  outcome-live :
      (now counter n : ℕ) (c : CurlConnection H) (front cs : List (CurlConnection H))
      → is_expired now c ≡ false
      → length cs ≤ n
      → outcome now counter (c ∷ front) n cs ≡ outcome now counter front (suc n) (c ∷ cs)
  unfolding outcome clean_back reverse_onto
  outcome-live now counter n c front [] e le =
      let k : suc n - suc 0 ≡ n = omega arith in rw (clean_back, e, k) refl
  outcome-live now counter n c front (d ∷ cs) e le =
      let k : suc n - suc (suc (length cs)) ≡ n - suc (length cs) = omega arith in rw k refl

  outcome-expired :
      (now counter n : ℕ) (c : CurlConnection H) (front : List (CurlConnection H))
      → is_expired now c ≡ true
      → outcome now counter (c ∷ front) n [] ≡ outcome now counter front (suc n) []
  unfolding outcome clean_back
  outcome-expired now counter n c front e =
      let k : counter - n - 1 ≡ counter - suc n = omega arith in rw (clean_back, e, k) refl

  clean_back-outcome :
      (now counter time : ℕ) (cs front : List (CurlConnection H))
      → Recent time cs
      → clean_back now counter (reverse_onto cs front)
        ≡ outcome now counter front (length cs) (keep (is_live now) cs)
  unfolding outcome reverse_onto keep Recent
  clean_back-outcome now counter time [] front r =
      let k : counter - 0 ≡ counter = omega arith in rw k refl
  clean_back-outcome now counter time (c ∷ cs) front (l, r) =
      clean_back-outcome now counter c.last_use_time cs (c ∷ front) r
      ∙ (elim (Bool-cases (is_expired now c)) [
        | inl e ↦
            let none_live = all_expired now c.last_use_time cs r (expired_time now c e) in
            rw (e, none_live) (outcome-expired now counter (length cs) c front e)
        | inr e ↦ rw e (
            outcome-live now counter (length cs) c front (keep (is_live now) cs) e
              (length-keep now cs))
      ])

  abbrev restored : List (CurlConnection H) × ℕ → List (CurlConnection H) × ℕ
  restored (kept, left) = (reverse_onto kept [], left)

  outcome-keep :
      (now counter n : ℕ) (cs : List (CurlConnection H))
      → restored (outcome now counter [] n cs) ≡ (cs, counter - (n - length cs))
  unfolding outcome clean_back reverse_onto
  outcome-keep now counter n [] = let k : n - 0 ≡ n = omega arith in rw k refl
  outcome-keep now counter n (c ∷ cs) =
      let e = reverse_onto-reverse_onto (c ∷ cs) [] [] in
      ap (λ l. (l, counter - (n - suc (length cs)))) (e ∙ append-nil (c ∷ cs))

  -- The cleaner keeps the connections of a key that are not expired, in their order, and counts the others.
  pub clean_list-keep :
      (now counter time : ℕ) (cs : List (CurlConnection H))
      → Recent time cs
      → clean_list now counter cs
        ≡ (keep (is_live now) cs, counter - (length cs - length (keep (is_live now) cs)))
  unfolding clean_list
  clean_list-keep now counter time cs r =
      ap restored (clean_back-outcome now counter time cs [] r)
      ∙ outcome-keep now counter (length cs) (keep (is_live now) cs)

  -- What the index has left after a round.
  unfoldable pub live_index :
      ℕ → List (Bytes × List (CurlConnection H)) → List (Bytes × List (CurlConnection H))
  live_index now [] = []
  live_index now ((key, cs) ∷ m) = (key, keep (is_live now) cs) ∷ live_index now m

  pub size-live_index :
      (now : ℕ) (m : List (Bytes × List (CurlConnection H))) → size (live_index now m) ≤ size m
  unfolding live_index size
  size-live_index now [] = omega arith
  size-live_index now ((key, cs) ∷ m) = omega (arith, size-live_index now m, length-keep now cs)

  pub clean_index-live_index :
      (now counter : ℕ) (m : List (Bytes × List (CurlConnection H)))
      → Every (λ key cs. Recent now cs) m
      → size m ≤ counter
      → clean_index now counter m ≡ (live_index now m, counter - (size m - size (live_index now m)))
  unfolding clean_index live_index Every size
  clean_index-live_index now counter [] e le =
      let k : counter - (0 - 0) ≡ counter = omega arith in rw k refl
  clean_index-live_index now counter ((key, cs) ∷ m) (r, e) le =
      let n = length (keep (is_live now) cs) in
      let fewer = length-keep now cs in
      let fewer' = size-live_index now m in
      let left = counter - (length cs - n) in
      let k : left - (size m - size (live_index now m))
          ≡ counter - (length cs + size m - (n + size (live_index now m))) =
        omega arith in
      rw
        (clean_list-keep now counter now cs r, clean_index-live_index now left m e (omega arith), k)
        refl
