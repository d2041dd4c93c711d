-- ===== src/Http/Curl/Pool.antt =====
-- `CurlConnectionPool` of sdk/core/azure-core/src/http/curl/curl.cpp and curl_connection_pool_private.hpp: the
-- connections that are kept for the next request. What is done under `ConnectionPoolMutex` is one
-- operation; times are in milliseconds of the steady clock, and `H` is a handle of libcurl.
pub mod Rounds
pub mod Invariant
pub mod Cleaning
pub mod Index
pub mod Reuse
pub mod Steps
mod Tests
use azure_sdk_for_cpp.Base.{
  ℕ, ◌≡◌, ◌+◌, ◌-◌, ◌*◌, Bool, true, false, ◌&&◌, ◌||◌, List, [], ◌∷◌, ◌++◌, Option, none, some,
  ltb, leb, ◌==◌, if◌then◌else◌, Bytes, codes, is_empty, Result, ok, err, ◌>>=◌,
}
use azure_sdk_for_cpp.Dict.{find, assign, erase}
use azure_sdk_for_cpp.Http.Curl.Session.{CurlSession, is_eof}

-- `CurlTransportOptions`, with `NoRevoke` of its SSL options.
pub record CurlTransportOptions : Type 0 where
  pub proxy : Bytes
  pub ca_info : Bytes
  pub no_revoke : Bool
  pub ssl_verify_peer : Bool
  pub http_keep_alive : Bool

abbrev text_or_zero : Bytes → Bytes
text_or_zero s = if is_empty s then codes "0" else s

abbrev digit_of : Bool → Bytes
digit_of b = if b then codes "1" else codes "0"

unfoldable pub get_connection_key : Bytes → CurlTransportOptions → Bytes
get_connection_key host o =
    host
    ++ (text_or_zero o.ca_info
        ++ (text_or_zero o.proxy ++ (digit_of o.no_revoke ++ digit_of o.ssl_verify_peer)))

pub record CurlConnection (H : Type 0) : Type 0 where
  pub handle : H
  pub connection_key : Bytes
  pub last_use_time : ℕ

-- `c_DefaultConnectionExpiredMilliseconds`
abbrev pub expired_milliseconds : ℕ
expired_milliseconds = 1000 * 60

-- The threads of `CleanUp` that run are counted, beside `s_isCleanConnectionsRunning`.
pub record CurlConnectionPool (H : Type 0) : Type 0 where
  pub connection_pool_index : List (Bytes × List (CurlConnection H))
  pub connection_counter : ℕ
  pub is_clean_connections_running : Bool
  pub cleaners : ℕ

-- The same elements from the last to the first, before others.
unfoldable pub reverse_onto {ℓ} : {A : Type ℓ} → List A → List A → List A
reverse_onto [] ys = ys
reverse_onto (x ∷ xs) ys = reverse_onto xs (x ∷ ys)

module _ {H : Type 0} where
  unfoldable pub is_expired : ℕ → CurlConnection H → Bool
  is_expired now c = leb expired_milliseconds (now - c.last_use_time)

  -- What is left under the key, of which the index is removed if that is nothing.
  unfoldable pub leave :
      Bytes
      → List (CurlConnection H)
      → List (Bytes × List (CurlConnection H))
      → List (Bytes × List (CurlConnection H))
  leave key [] m = erase key m
  leave key (c ∷ cs) m = assign key (c ∷ cs) m

  -- The first connection of the list that was found, if it has one.
  unfoldable pub pick :
      Bytes
      → CurlConnectionPool H
      → Option (List (CurlConnection H))
      → Option (CurlConnection H) × CurlConnectionPool H
  pick key p none = (none, p)
  pick key p (some []) = (none, p)
  pick key p (some (c ∷ cs)) = (
    some c,
    record p {
      connection_pool_index = leave key cs p.connection_pool_index;
      connection_counter = p.connection_counter - 1;
    },
  )

  -- The critical section of `GetCurlConnection`.
  unfoldable pub take_connection :
      Bytes → CurlConnectionPool H → Option (CurlConnection H) × CurlConnectionPool H
  take_connection key p = pick key p (find key p.connection_pool_index)

  abbrev pub or_create :
      {E : Type 0}
      → Bytes
      → Result E H
      → Option (CurlConnection H) × CurlConnectionPool H
      → Result E (CurlConnection H × CurlConnectionPool H)
  or_create key made (some c, p) = ok (c, p)
  or_create key made (none, p) = do
    h ← made
    ok (record { handle = h; connection_key = key; last_use_time = 0 }, p)

  -- `create` opens a connection with libcurl.
  unfoldable pub get_curl_connection :
      {E : Type 0}
      → (Bytes → CurlTransportOptions → Result E H)
      → Bytes
      → CurlTransportOptions
      → CurlConnectionPool H
      → Result E (CurlConnection H × CurlConnectionPool H)
  get_curl_connection create host o p =
      let key = get_connection_key host o in or_create key (create host o) (take_connection key p)

  abbrev pub list_or_empty : Option (List (CurlConnection H)) → List (CurlConnection H)
  list_or_empty none = []
  list_or_empty (some cs) = cs

  -- `ConnectionPoolIndex[key]`, as it is read.
  unfoldable pub connections_of : Bytes → CurlConnectionPool H → List (CurlConnection H)
  connections_of key p = list_or_empty (find key p.connection_pool_index)

  -- The call of `CleanUp`, where no cleaner runs.
  unfoldable pub start_cleaner : CurlConnectionPool H → CurlConnectionPool H
  start_cleaner p =
      if p.is_clean_connections_running
      then p
      else record p { is_clean_connections_running = true; cleaners = p.cleaners + 1 }

  unfoldable pub move_connection_back_to_pool :
      ℕ → CurlConnection H → ℕ → CurlConnectionPool H → CurlConnectionPool H
  move_connection_back_to_pool now c code p =
      if ltb code 200 || leb 300 code
      then p
      else start_cleaner (record p {
        connection_pool_index =
            assign c.connection_key
              (record c { last_use_time = now } ∷ connections_of c.connection_key p)
              p.connection_pool_index;
        connection_counter = p.connection_counter + 1;
      })

  -- The destructor of `CurlSession`. A connection that is not kept is closed.
  unfoldable pub close_session :
      ℕ → CurlSession → Bool → CurlConnection H → ℕ → CurlConnectionPool H → CurlConnectionPool H
  close_session now s keep_alive c code p =
      if is_eof s && keep_alive then move_connection_back_to_pool now c code p else p

  -- The loop over the connections of one key, of which the list is in reverse order.
  unfoldable pub clean_back : ℕ → ℕ → List (CurlConnection H) → List (CurlConnection H) × ℕ
  clean_back now counter [] = ([], counter)
  clean_back now counter (c ∷ cs) =
      let rest = clean_back now (counter - 1) cs in
      if is_expired now c then rest else (c ∷ cs, counter)

  unfoldable pub clean_list : ℕ → ℕ → List (CurlConnection H) → List (CurlConnection H) × ℕ
  clean_list now counter cs =
      let (kept, left) = clean_back now counter (reverse_onto cs []) in (reverse_onto kept [], left)

  unfoldable pub clean_index :
      ℕ → ℕ → List (Bytes × List (CurlConnection H)) → List (Bytes × List (CurlConnection H)) × ℕ
  clean_index now counter [] = ([], counter)
  clean_index now counter ((key, cs) ∷ m) =
      let (kept, left) = clean_list now counter cs in
      let (index, remaining) = clean_index now left m in ((key, kept) ∷ index, remaining)

  -- What the thread of `CleanUp` does each time it wakes up.
  unfoldable pub clean_up_round : ℕ → CurlConnectionPool H → CurlConnectionPool H
  clean_up_round now p =
      if p.connection_counter == 0
      then record p { is_clean_connections_running = false; cleaners = p.cleaners - 1 }
      else let (index, remaining) = clean_index now p.connection_counter p.connection_pool_index in
        record p { connection_pool_index = index; connection_counter = remaining }

  -- What the threads of the program do to the pool, at a time, one after another.
  pub data Step : ℕ × CurlConnectionPool H → ℕ × CurlConnectionPool H → Type 0 where
    wait : {now : ℕ} {p : CurlConnectionPool H} (time : ℕ) → Step (now, p) (now + time, p)
    get :
        {now : ℕ} {p : CurlConnectionPool H} (key : Bytes)
        → Step (now, p) (now, (take_connection key p).1)
    put :
        {now : ℕ} {p : CurlConnectionPool H} (c : CurlConnection H) (code : ℕ)
        → Step (now, p) (now, move_connection_back_to_pool now c code p)
    clean :
        {now : ℕ} {p : CurlConnectionPool H}
        → (p.cleaners == 0) ≡ false
        → Step (now, p) (now, clean_up_round now p)

  abbrev pub empty_pool : CurlConnectionPool H
  empty_pool = record {
    connection_pool_index = [];
    connection_counter = 0;
    is_clean_connections_running = false;
    cleaners = 0;
  }

  pub data Reachable : ℕ × CurlConnectionPool H → Type 0 where
    start : {now : ℕ} → Reachable (now, empty_pool)
    after : {x y : ℕ × CurlConnectionPool H} → Reachable x → Step x y → Reachable y
