-- ===== src/Http/Curl/Pool/Reuse.antt =====
-- Which connections the pool of curl.cpp yields, keeps and removes.
use azure_sdk_for_cpp.Base.{
  ℕ, ◌+◌, ◌≤◌, ◌≡◌, refl, ◌∙◌, sym, ap, subst, ◌||◌, List, [], ◌∷◌, Option, none, some,
  if◌then◌else◌, if-true, if-false, ltb, leb, Bytes, eqb, eqb_iff, Result, OnOk, ok, err, arith,
  Bool-cases, inl, inr,
}
use azure_sdk_for_cpp.Dict.{find, assign, IsSorted}
use azure_sdk_for_cpp.Dict.Laws.{find-assign, find-erase, assign-IsSorted}
use azure_sdk_for_cpp.Http.Curl.Pool.Index.{Every-find}
use azure_sdk_for_cpp.Http.Curl.Pool.Steps.{Reachable-WellFormed}
use azure_sdk_for_cpp.Http.Curl.Pool.Invariant.{IsKept, WellFormed, pick-WellFormed}
use azure_sdk_for_cpp.Http.Curl.Pool.{
  CurlTransportOptions, get_connection_key, CurlConnection, CurlConnectionPool, leave, pick,
  take_connection, or_create, get_curl_connection, list_or_empty, connections_of, start_cleaner,
  move_connection_back_to_pool, Reachable,
}
use azure_sdk_for_cpp.Http.Curl.Pool.Rounds.{success}

module _ {H : Type 0} where
  pick-get :
      {E : Type 0} (now : ℕ) (key : Bytes) (p : CurlConnectionPool H) (made : Result E H)
      (o : Option (List (CurlConnection H)))
      → find key p.connection_pool_index ≡ o
      → WellFormed now p
      → OnOk
          (λ (c, q). (c.connection_key ≡ key) × WellFormed now q)
          (or_create key made (pick key p o))
  unfolding pick
  pick-get now key p (ok h) none e w = (refl, w)
  pick-get now key p (err x) none e w = tt
  pick-get now key p (ok h) (some []) e w = (refl, w)
  pick-get now key p (err x) (some []) e w = tt
  pick-get now key p made (some (c ∷ cs)) e w = (
    (Every-find (IsKept now) key (c ∷ cs) p.connection_pool_index w.kept e).0.0,
    pick-WellFormed now key p (some (c ∷ cs)) e w,
  )

  -- A connection from the pool, or one that is made if it has none, was made for the host and the options,
  -- as far as they make up the key.
  pub get_curl_connection-connection_key :
      {E : Type 0} (create : Bytes → CurlTransportOptions → Result E H) (now : ℕ) (host : Bytes)
      (o : CurlTransportOptions) (p : CurlConnectionPool H)
      → Reachable (now, p)
      → OnOk
          (λ (c, q). (c.connection_key ≡ get_connection_key host o) × WellFormed now q)
          (get_curl_connection create host o p)
  unfolding get_curl_connection take_connection
  get_curl_connection-connection_key create now host o p r =
      let key = get_connection_key host o in
      pick-get now key p (create host o) (find key p.connection_pool_index) refl
        (Reachable-WellFormed (now, p) r)

  -- What is left after a connection is taken, where the map had it in front of others.
  find-leave :
      (k i : Bytes) (cs : List (CurlConnection H)) (m : List (Bytes × List (CurlConnection H)))
      → IsSorted m
      → list_or_empty (find i (leave k cs m)) ≡ (if eqb k i then cs else list_or_empty (find i m))
  unfolding leave
  find-leave k i [] m s = elim (Bool-cases (eqb k i)) [
    | inl e ↦ rw (find-erase k i m s, e) refl
    | inr e ↦ rw (find-erase k i m s, e) refl
  ]
  find-leave k i (c ∷ cs) m s = elim (Bool-cases (eqb k i)) [
    | inl e ↦ rw (find-assign k i (c ∷ cs) m, e) refl
    | inr e ↦ rw (find-assign k i (c ∷ cs) m, e) refl
  ]

  -- The connection that was put under the key, before the others, and is taken again.
  abbrev pub Restores :
      CurlConnection H
      → CurlConnectionPool H
      → Option (CurlConnection H) × CurlConnectionPool H
      → Type 0
  Restores c p (o, q) =
      (o ≡ some c)
      × ((q.connection_counter ≡ p.connection_counter)
          × ((i : Bytes) → connections_of i q ≡ connections_of i p))

  start_cleaner-index :
      (p : CurlConnectionPool H)
      → ((start_cleaner p).connection_pool_index ≡ p.connection_pool_index)
        × ((start_cleaner p).connection_counter ≡ p.connection_counter)
  unfolding start_cleaner
  start_cleaner-index p = elim (Bool-cases p.is_clean_connections_running) [
    | inl e ↦
        let x = if-true {A = CurlConnectionPool H} p.is_clean_connections_running _ _ e in
        (
          ap (λ (q : CurlConnectionPool H). q.connection_pool_index) x,
          ap (λ (q : CurlConnectionPool H). q.connection_counter) x,
        )
    | inr e ↦
        let x = if-false {A = CurlConnectionPool H} p.is_clean_connections_running _ _ e in
        (
          ap (λ (q : CurlConnectionPool H). q.connection_pool_index) x,
          ap (λ (q : CurlConnectionPool H). q.connection_counter) x,
        )
  ]

  others_kept :
      (key i : Bytes) (cs : List (CurlConnection H)) (m : List (Bytes × List (CurlConnection H)))
      → IsSorted m
      → (c : CurlConnection H) → cs ≡ list_or_empty (find key m)
      → list_or_empty (find i (leave key cs (assign key (c ∷ cs) m))) ≡ list_or_empty (find i m)
  others_kept key i cs m s c e =
      find-leave key i cs (assign key (c ∷ cs) m) (assign-IsSorted key (c ∷ cs) m s)
      ∙ elim (Bool-cases (eqb key i)) [
        | inl f ↦
            if-true (eqb key i) _ _ f
            ∙ (e ∙ ap (λ k. list_or_empty (find k m)) ((eqb_iff key i).0 f))
        | inr f ↦
            if-false (eqb key i) _ _ f
            ∙ ap list_or_empty (find-assign key i (c ∷ cs) m ∙ if-false (eqb key i) _ _ f)
      ]

  pick-Restores :
      (p q : CurlConnectionPool H) (c : CurlConnection H)
      → IsSorted p.connection_pool_index
      → q.connection_pool_index
        ≡ assign c.connection_key (c ∷ connections_of c.connection_key p) p.connection_pool_index
      → q.connection_counter ≡ p.connection_counter + 1
      → Restores c p (take_connection c.connection_key q)
  unfolding take_connection pick connections_of
  pick-Restores p q c s e f =
      let key = c.connection_key in
      let cs = list_or_empty (find key p.connection_pool_index) in
      let found : find key q.connection_pool_index ≡ some (c ∷ cs) =
        ap (find key) e
        ∙ (find-assign key key (c ∷ cs) p.connection_pool_index
            ∙ if-true (eqb key key) _ _ ((eqb_iff key key).1 refl)) in
      subst (λ o. Restores c p (pick key q o)) (sym found)
        (
          refl,
          (
            omega arith,
            λ i.
                ap (λ m. list_or_empty (find i (leave key cs m))) e
                ∙ others_kept key i cs p.connection_pool_index s c refl,
          ),
        )

  -- A connection that goes back to the pool after a response of success is the next one that is taken
  -- under its key, with the time of its return, and what the pool had before is left.
  pub take_connection-move_connection_back_to_pool :
      (now : ℕ) (p : CurlConnectionPool H) (c : CurlConnection H) (code : ℕ)
      → Reachable (now, p)
      → 200 ≤ code
      → code ≤ 299
      → Restores
          (record c { last_use_time = now })
          p
          (take_connection c.connection_key (move_connection_back_to_pool now c code p))
  unfolding move_connection_back_to_pool
  take_connection-move_connection_back_to_pool now p c code r l g =
      let w = Reachable-WellFormed (now, p) r in
      let kept = start_cleaner-index _ in
      subst
        (λ q. Restores (record c { last_use_time = now }) p (take_connection c.connection_key q))
        (sym (if-false (ltb code 200 || leb 300 code) _ _ (success code l g)))
        (pick-Restores p _ (record c { last_use_time = now }) w.sorted kept.0 kept.1)
