-- ===== src/Http/Curl/Pool/Rounds.antt =====
-- What the rounds of the cleaner of the pool of curl.cpp keep and remove.
use azure_sdk_for_cpp.Base.{
  ℕ, ◌+◌, ◌-◌, ◌≤◌, ◌≡◌, refl, ◌∙◌, sym, ap, subst, Bool, true, false, ◌||◌, List, [], ◌∷◌,
  if◌then◌else◌, if-true, ltb, leb, ◌==◌, Bytes, eqb, arith, Bool-cases, inl, inr,
}
use azure_sdk_for_cpp.Dict.{find}
use azure_sdk_for_cpp.Http.Curl.Pool.Index.{size, Every}
use azure_sdk_for_cpp.Http.Curl.Pool.Cleaning.{keep, is_live, all_expired, live_index}
use azure_sdk_for_cpp.Http.Curl.Pool.Steps.{clean_up_round-live_index, Reachable-WellFormed}
use azure_sdk_for_cpp.Http.Curl.Pool.Invariant.{IsKept}
use azure_sdk_for_cpp.Http.Curl.Pool.{
  CurlConnection, CurlConnectionPool, expired_milliseconds, list_or_empty, connections_of,
  clean_up_round, wait, Reachable, after,
}

pub success : (code : ℕ) → 200 ≤ code → code ≤ 299 → (ltb code 200 || leb 300 code) ≡ false
success code l g = ground arith

one_at_most : (b : Bool) → (if b then 1 else 0) ≤ 1
one_at_most true = omega arith
one_at_most false = omega arith

module _ {H : Type 0} where
  find-live_index :
      (now : ℕ) (key : Bytes) (m : List (Bytes × List (CurlConnection H)))
      → list_or_empty (find key (live_index now m))
        ≡ keep (is_live now) (list_or_empty (find key m))
  unfolding find live_index keep
  find-live_index now key [] = refl
  find-live_index now key ((j, cs) ∷ m) = elim (Bool-cases (eqb j key)) [
    | inl e ↦ rw e refl
    | inr e ↦ rw e (find-live_index now key m)
  ]

  find-empty :
      (now : ℕ) (key : Bytes) (m : List (Bytes × List (CurlConnection H)))
      → size m ≡ 0
      → list_or_empty (find key m) ≡ keep (is_live now) (list_or_empty (find key m))
  unfolding find size keep
  find-empty now key [] e = refl
  find-empty now key ((j, []) ∷ m) e = elim (Bool-cases (eqb j key)) [
    | inl f ↦ rw f refl
    | inr f ↦ rw f (find-empty now key m (omega arith))
  ]
  find-empty now key ((j, c ∷ cs) ∷ m) e = absurd (omega arith)

  -- A round of the cleaner keeps, under every key and in their order, the connections that are not
  -- expired, and no others.
  pub clean_up_round-keep :
      (now : ℕ) (p : CurlConnectionPool H) (key : Bytes)
      → Reachable (now, p)
      → connections_of key (clean_up_round now p) ≡ keep (is_live now) (connections_of key p)
  unfolding connections_of clean_up_round
  clean_up_round-keep now p key r =
      let w = Reachable-WellFormed (now, p) r in
      let counted = w.counted in
      elim (Bool-cases (p.connection_counter == 0)) [
        | inl e ↦
            ap (connections_of key) (if-true (p.connection_counter == 0) _ _ e)
            ∙ find-empty now key p.connection_pool_index (ground arith)
        | inr e ↦
            ap (connections_of key) (clean_up_round-live_index now p w e)
            ∙ find-live_index now key p.connection_pool_index
      ]

  none_live :
      (now later : ℕ) (m : List (Bytes × List (CurlConnection H)))
      → now + expired_milliseconds ≤ later
      → Every (IsKept now) m
      → size (live_index later m) ≡ 0
  unfolding Every live_index size
  none_live now later [] le e = refl
  none_live now later ((key, cs) ∷ m) le ((k, r), e) =
      rw (all_expired later now cs r (omega arith)) (omega (arith, none_live now later m le e))

  no_connections :
      (now : ℕ) (p : CurlConnectionPool H)
      → (p.connection_counter == 0) ≡ true
      → clean_up_round now p
        ≡ record p { is_clean_connections_running = false; cleaners = p.cleaners - 1 }
  unfolding clean_up_round
  no_connections now p e = if-true (p.connection_counter == 0) _ _ e

  -- Nothing is kept, and no cleaner runs.
  abbrev pub IsIdle : CurlConnectionPool H → Type 0
  IsIdle p =
      (p.connection_counter ≡ 0) × ((p.cleaners ≡ 0) × (p.is_clean_connections_running ≡ false))

  last_round :
      (now : ℕ) (p : CurlConnectionPool H)
      → p.connection_counter ≡ 0
      → p.cleaners ≤ 1
      → IsIdle (clean_up_round now p)
  last_round now p e le =
      subst IsIdle (sym (no_connections now p (ground arith))) (e, (omega arith, refl))

  -- Once a minute has passed in which nothing was done to the pool, two rounds of the cleaner leave no
  -- connection, and the cleaner has ended.
  pub clean_up_round-IsIdle :
      (now later latest : ℕ) (p : CurlConnectionPool H)
      → Reachable (now, p)
      → now + expired_milliseconds ≤ later
      → IsIdle (clean_up_round latest (clean_up_round later p))
  clean_up_round-IsIdle now later latest p r le =
      let w = Reachable-WellFormed (now, p) r in
      let w' = Reachable-WellFormed (later, p) (waited r) in
      let one =
        subst (λ n. n ≤ 1) (sym w.one_cleaner) (one_at_most p.is_clean_connections_running) in
      elim (Bool-cases (p.connection_counter == 0)) [
        | inl e ↦
            subst (λ q. IsIdle (clean_up_round latest q)) (sym (no_connections later p e))
              (last_round latest _ (ground arith) (omega arith))
        | inr e ↦
            subst (λ q. IsIdle (clean_up_round latest q))
              (sym (clean_up_round-live_index later p w' e))
              (last_round latest _ (none_live now later p.connection_pool_index le w.kept) one)
      ]
    where
      waited : Reachable (now, p) → Reachable (later, p)
      waited r =
          let e : now + (later - now) ≡ later = omega arith in
          subst (λ t. Reachable (t, p)) e (after r (wait (later - now)))
