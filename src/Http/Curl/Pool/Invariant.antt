-- ===== src/Http/Curl/Pool/Invariant.antt =====
-- The invariant of the connection pool of curl.cpp, when a connection is taken and when one goes back.
use azure_sdk_for_cpp.Base.{
  ℕ, suc, ◌+◌, ◌≤◌, ◌≡◌, refl, ◌∙◌, sym, ap, subst, true, ◌||◌, List, [], ◌∷◌, Option, none, some,
  if◌then◌else◌, if-true, if-false, ltb, leb, length, Bytes, arith, Bool-cases, ◌⊎◌, inl, inr,
}
use azure_sdk_for_cpp.Dict.{find, IsSorted}
use azure_sdk_for_cpp.Dict.Laws.{assign-IsSorted, erase-IsSorted}
use azure_sdk_for_cpp.Http.Curl.Pool.Index.{
  size, size-assign, size-erase, count_of, Every, Every-find, Every-assign, Every-erase,
}
use azure_sdk_for_cpp.Http.Curl.Pool.Cleaning.{Recent, Recent-weaken}
use azure_sdk_for_cpp.Http.Curl.Pool.{
  CurlConnection, CurlConnectionPool, leave, pick, connections_of, start_cleaner,
  move_connection_back_to_pool,
}

module _ {H : Type 0} where
  abbrev pub Keyed : Bytes → List (CurlConnection H) → Type 0
  Keyed key [] = Unit
  Keyed key (c ∷ cs) = (c.connection_key ≡ key) × Keyed key cs

  -- The lists of the index: their connections have their key, and come in the order of their last use.
  abbrev pub IsKept : ℕ → Bytes → List (CurlConnection H) → Type 0
  IsKept now key cs = Keyed key cs × Recent now cs

  pub record WellFormed (now : ℕ) (p : CurlConnectionPool H) : Type 0 where
    pub sorted : IsSorted p.connection_pool_index
    pub counted : p.connection_counter ≡ size p.connection_pool_index
    pub kept : Every (IsKept now) p.connection_pool_index
    -- One cleaner runs, or none.
    pub one_cleaner : p.cleaners ≡ (if p.is_clean_connections_running then 1 else 0)
    -- While there are connections, one does.
    pub cleaned : (p.connection_counter ≡ 0) ⊎ (p.is_clean_connections_running ≡ true)

  pub IsKept-weaken :
      (now later : ℕ)
      → now ≤ later
      → (key : Bytes) (cs : List (CurlConnection H)) → IsKept now key cs
      → IsKept later key cs
  IsKept-weaken now later le key cs (k, r) = (k, Recent-weaken now later cs le r)

  leave-IsSorted :
      (key : Bytes) (cs : List (CurlConnection H)) (m : List (Bytes × List (CurlConnection H)))
      → IsSorted m
      → IsSorted (leave key cs m)
  unfolding leave
  leave-IsSorted key [] m s = erase-IsSorted key m s
  leave-IsSorted key (c ∷ cs) m s = assign-IsSorted key (c ∷ cs) m s

  leave-Every :
      (now : ℕ) (key : Bytes) (cs : List (CurlConnection H))
      (m : List (Bytes × List (CurlConnection H)))
      → IsKept now key cs
      → Every (IsKept now) m
      → Every (IsKept now) (leave key cs m)
  unfolding leave
  leave-Every now key [] m k e = Every-erase (IsKept now) key m e
  leave-Every now key (c ∷ cs) m k e = Every-assign (IsKept now) key (c ∷ cs) m e k

  size-leave :
      (key : Bytes) (cs : List (CurlConnection H)) (m : List (Bytes × List (CurlConnection H)))
      → IsSorted m
      → size (leave key cs m) + count_of (find key m) ≡ size m + length cs
  unfolding leave
  size-leave key [] m s = omega (arith, size-erase key m)
  size-leave key (c ∷ cs) m s = size-assign key (c ∷ cs) m s

  pub pick-WellFormed :
      (now : ℕ) (key : Bytes) (p : CurlConnectionPool H) (o : Option (List (CurlConnection H)))
      → find key p.connection_pool_index ≡ o
      → WellFormed now p
      → WellFormed now (pick key p o).1
  unfolding pick Recent
  pick-WellFormed now key p none e w = w
  pick-WellFormed now key p (some []) e w = w
  pick-WellFormed now key p (some (c ∷ cs)) e w =
      let ((k, ks), (r, rs)) =
        Every-find (IsKept now) key (c ∷ cs) p.connection_pool_index w.kept e in
      let n = size-leave key cs p.connection_pool_index w.sorted in
      let found : count_of (find key p.connection_pool_index) ≡ suc (length cs) = ap count_of e in
      let counted = w.counted in
      record {
        sorted = leave-IsSorted key cs p.connection_pool_index w.sorted;
        counted = omega arith;
        kept =
            leave-Every now key cs p.connection_pool_index
              (ks, Recent-weaken c.last_use_time now cs r rs) w.kept;
        one_cleaner = w.one_cleaner;
        cleaned = elim w.cleaned [ inl z ↦ inl (omega arith) | inr z ↦ inr z ];
      }

  connections_of-IsKept :
      (now : ℕ) (key : Bytes) (p : CurlConnectionPool H) (o : Option (List (CurlConnection H)))
      → find key p.connection_pool_index ≡ o
      → Every (IsKept now) p.connection_pool_index
      → IsKept now key (connections_of key p)
  unfolding connections_of Recent
  connections_of-IsKept now key p none e k = rw e (tt, tt)
  connections_of-IsKept now key p (some cs) e k =
      rw e (Every-find (IsKept now) key cs p.connection_pool_index k e)

  count_of-connections :
      (key : Bytes) (p : CurlConnectionPool H) (o : Option (List (CurlConnection H)))
      → find key p.connection_pool_index ≡ o
      → length (connections_of key p) ≡ count_of (find key p.connection_pool_index)
  unfolding connections_of
  count_of-connections key p none e = rw e refl
  count_of-connections key p (some cs) e = rw e refl

  start_cleaner-WellFormed :
      (now : ℕ) (p : CurlConnectionPool H)
      → IsSorted p.connection_pool_index
      → p.connection_counter ≡ size p.connection_pool_index
      → Every (IsKept now) p.connection_pool_index
      → p.cleaners ≡ (if p.is_clean_connections_running then 1 else 0)
      → WellFormed now (start_cleaner p)
  unfolding start_cleaner
  start_cleaner-WellFormed now p s c k one = elim (Bool-cases p.is_clean_connections_running) [
    | inl e ↦
        subst (WellFormed now) (sym (if-true p.is_clean_connections_running _ _ e))
          (record { sorted = s; counted = c; kept = k; one_cleaner = one; cleaned = inr e })
    | inr e ↦ subst (WellFormed now) (sym (if-false p.is_clean_connections_running _ _ e)) (
        let none_runs = one ∙ if-false p.is_clean_connections_running 1 0 e in
        record { sorted = s; counted = c; kept = k; one_cleaner = omega arith; cleaned = inr refl })
  ]

  pub put-WellFormed :
      (now : ℕ) (c : CurlConnection H) (code : ℕ) (p : CurlConnectionPool H)
      → WellFormed now p
      → WellFormed now (move_connection_back_to_pool now c code p)
  unfolding move_connection_back_to_pool connections_of Recent
  put-WellFormed now c code p w = elim (Bool-cases (ltb code 200 || leb 300 code)) [
    | inl e ↦ rw e w
    | inr e ↦
        let key = c.connection_key in
        let cs = connections_of key p in
        let n =
          size-assign key (record c { last_use_time = now } ∷ cs) p.connection_pool_index
            w.sorted in
        let found = count_of-connections key p (find key p.connection_pool_index) refl in
        let (ks, rs) =
          connections_of-IsKept now key p (find key p.connection_pool_index) refl w.kept in
        let counted = w.counted in
        rw e (
          start_cleaner-WellFormed now _ (assign-IsSorted key _ p.connection_pool_index w.sorted)
            (omega arith)
            (Every-assign (IsKept now) key _ p.connection_pool_index w.kept
              ((refl, ks), (omega arith, rs)))
            w.one_cleaner)
  ]
