-- ===== src/Http/Curl/Pool/Steps.antt =====
-- What holds of the connection pool of curl.cpp whenever its mutex is free.
use azure_sdk_for_cpp.Base.{
  ℕ, ◌+◌, ◌-◌, ◌≡◌, refl, ◌∙◌, sym, ap, subst, false, List, [], ◌∷◌, if-true, if-false, ◌==◌, Bytes,
  arith, Bool-cases, inl, inr,
}
use azure_sdk_for_cpp.Dict.{find, After, IsSorted}
use azure_sdk_for_cpp.Http.Curl.Pool.Index.{size, Every, Every-map}
use azure_sdk_for_cpp.Http.Curl.Pool.Cleaning.{
  Recent, keep, is_live, keep-Recent, live_index, clean_index-live_index, size-live_index,
}
use azure_sdk_for_cpp.Http.Curl.Pool.{
  CurlConnection, CurlConnectionPool, take_connection, clean_up_round, Step, wait, get, put, clean,
  Reachable, start, after,
}
use azure_sdk_for_cpp.Http.Curl.Pool.Invariant.{
  Keyed, IsKept, WellFormed, IsKept-weaken, pick-WellFormed, put-WellFormed,
}

module _ {H : Type 0} where
  keep-Keyed :
      (now : ℕ) (key : Bytes) (cs : List (CurlConnection H))
      → Keyed key cs
      → Keyed key (keep (is_live now) cs)
  unfolding keep
  keep-Keyed now key [] k = tt
  keep-Keyed now key (c ∷ cs) (k, ks) = elim (Bool-cases (is_live now c)) [
    | inl e ↦ rw e (k, keep-Keyed now key cs ks)
    | inr e ↦ rw e (keep-Keyed now key cs ks)
  ]

  After-live_index :
      (now : ℕ) (key : Bytes) (m : List (Bytes × List (CurlConnection H)))
      → After key m
      → After key (live_index now m)
  unfolding live_index
  After-live_index now key [] a = tt
  After-live_index now key ((j, cs) ∷ m) (b, a) = (b, After-live_index now key m a)

  live_index-IsSorted :
      (now : ℕ) (m : List (Bytes × List (CurlConnection H)))
      → IsSorted m
      → IsSorted (live_index now m)
  unfolding live_index
  live_index-IsSorted now [] s = tt
  live_index-IsSorted now ((j, cs) ∷ m) (a, s) =
      (After-live_index now j m a, live_index-IsSorted now m s)

  live_index-Every :
      (now : ℕ) (m : List (Bytes × List (CurlConnection H)))
      → Every (IsKept now) m
      → Every (IsKept now) (live_index now m)
  unfolding live_index Every
  live_index-Every now [] e = tt
  live_index-Every now ((j, cs) ∷ m) ((k, r), e) =
      ((keep-Keyed now j cs k, keep-Recent now now cs r), live_index-Every now m e)

  -- A round of the cleaner leaves the live connections of each key.
  pub clean_up_round-live_index :
      (now : ℕ) (p : CurlConnectionPool H)
      → WellFormed now p
      → (p.connection_counter == 0) ≡ false
      → clean_up_round now p ≡ record p {
        connection_pool_index = live_index now p.connection_pool_index;
        connection_counter = size (live_index now p.connection_pool_index);
      }
  unfolding clean_up_round
  clean_up_round-live_index now p w e =
      let counted = w.counted in
      let fewer = size-live_index now p.connection_pool_index in
      let n : p.connection_counter
            - (size p.connection_pool_index - size (live_index now p.connection_pool_index))
          ≡ size (live_index now p.connection_pool_index) =
        omega arith in
      if-false (p.connection_counter == 0) _ _ e
      ∙ (ap (λ x. record p { connection_pool_index = x.0; connection_counter = x.1 })
            (clean_index-live_index now p.connection_counter p.connection_pool_index
              (Every-map (IsKept now) (λ key cs. Recent now cs) p.connection_pool_index
                (λ key cs k. k.1) w.kept)
              (omega arith))
          ∙ ap
              (λ k. record p {
                connection_pool_index = live_index now p.connection_pool_index;
                connection_counter = k;
              })
              n)

  clean_up_round-WellFormed :
      (now : ℕ) (p : CurlConnectionPool H)
      → (p.cleaners == 0) ≡ false
      → WellFormed now p
      → WellFormed now (clean_up_round now p)
  unfolding clean_up_round
  clean_up_round-WellFormed now p busy w = elim (Bool-cases (p.connection_counter == 0)) [
    | inl e ↦
        let one = w.one_cleaner in
        subst (WellFormed now) (sym (if-true (p.connection_counter == 0) _ _ e)) (record {
          sorted = w.sorted;
          counted = w.counted;
          kept = w.kept;
          one_cleaner = ground arith;
          cleaned = inl (ground arith);
        })
    | inr e ↦ subst (WellFormed now) (sym (clean_up_round-live_index now p w e)) (record {
      sorted = live_index-IsSorted now p.connection_pool_index w.sorted;
      counted = refl;
      kept = live_index-Every now p.connection_pool_index w.kept;
      one_cleaner = w.one_cleaner;
      cleaned = inr (elim w.cleaned [ inl z ↦ absurd (ground arith) | inr z ↦ z ]);
    })
  ]

  Step-WellFormed :
      (x y : ℕ × CurlConnectionPool H) → Step x y → WellFormed x.0 x.1 → WellFormed y.0 y.1
  unfolding take_connection
  Step-WellFormed x y (wait {now} {p} time) w = record {
    sorted = w.sorted;
    counted = w.counted;
    kept =
        Every-map (IsKept now) (IsKept (now + time)) p.connection_pool_index
          (IsKept-weaken now (now + time) (omega arith)) w.kept;
    one_cleaner = w.one_cleaner;
    cleaned = w.cleaned;
  }
  Step-WellFormed x y (get {now} {p} key) w =
      pick-WellFormed now key p (find key p.connection_pool_index) refl w
  Step-WellFormed x y (put {now} {p} c code) w = put-WellFormed now c code p w
  Step-WellFormed x y (clean {now} {p} busy) w = clean_up_round-WellFormed now p busy w

  -- Whatever the threads of the program do to the pool, one operation after another, from the empty pool
  -- on: the counter is the number of connections, each under its key and in the order of their last
  -- use, at most one cleaner runs, and one does while there are connections.
  pub Reachable-WellFormed : (x : ℕ × CurlConnectionPool H) → Reachable x → WellFormed x.0 x.1
  unfolding size Every
  Reachable-WellFormed x (start {now}) = record {
    sorted = tt;
    counted = refl;
    kept = tt;
    one_cleaner = refl;
    cleaned = inl refl;
  }
  Reachable-WellFormed y (after {x} r s) = Step-WellFormed x y s (Reachable-WellFormed x r)
