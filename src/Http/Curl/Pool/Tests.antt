-- ===== src/Http/Curl/Pool/Tests.antt =====
-- The theorems on the pool, with one connection that was used once and is back.
use azure_sdk_for_cpp.Base.{ℕ, ◌≡◌, refl, true, false, [], Bytes, codes, Result, ok, arith}
use azure_sdk_for_cpp.Dict.{find, assign}
use azure_sdk_for_cpp.Http.Curl.Pool.Cleaning.{keep, is_live}
use azure_sdk_for_cpp.Http.Curl.Pool.Steps.{Reachable-WellFormed}
use azure_sdk_for_cpp.Http.Curl.Pool.Invariant.{WellFormed}
use azure_sdk_for_cpp.Http.Curl.Pool.Rounds.{IsIdle, clean_up_round-keep, clean_up_round-IsIdle}
use azure_sdk_for_cpp.Http.Curl.Pool.{
  CurlTransportOptions, get_connection_key, CurlConnection, CurlConnectionPool, connections_of,
  start_cleaner, move_connection_back_to_pool, clean_back, clean_list, clean_index, clean_up_round,
  is_expired, reverse_onto, put, empty_pool, Reachable, start, after,
}

abbrev options : CurlTransportOptions
options = record {
  proxy = [];
  ca_info = [];
  no_revoke = false;
  ssl_verify_peer = true;
  http_keep_alive = true;
}

the_key : get_connection_key (codes "a.com") options ≡ codes "a.com0001"
unfolding get_connection_key
the_key = refl

-- The handle of libcurl is a number here.
abbrev connection : ℕ → CurlConnection ℕ
connection time = record { handle = 7; connection_key = codes "a.com0001"; last_use_time = time }

abbrev pool : CurlConnectionPool ℕ
pool = move_connection_back_to_pool 500 (connection 0) 200 empty_pool

pool-Reachable : Reachable (500, pool)
pool-Reachable = after start (put (connection 0) 200)

-- A connection expires after a minute.
cleaned : connections_of (codes "a.com0001") (clean_up_round 60500 pool) ≡ []
unfolding connections_of clean_up_round clean_index clean_list clean_back is_expired reverse_onto
    find assign move_connection_back_to_pool start_cleaner
cleaned = refl

Reachable-WellFormed_example : WellFormed 500 pool
Reachable-WellFormed_example = Reachable-WellFormed (500, pool) pool-Reachable

clean_up_round-keep_example :
    connections_of (codes "a.com0001") (clean_up_round 500 pool)
    ≡ keep (is_live 500) (connections_of (codes "a.com0001") pool)
clean_up_round-keep_example = clean_up_round-keep 500 pool (codes "a.com0001") pool-Reachable

clean_up_round-IsIdle_example : IsIdle (clean_up_round 180_000 (clean_up_round 90_000 pool))
clean_up_round-IsIdle_example =
    clean_up_round-IsIdle 500 90_000 180_000 pool pool-Reachable (omega arith)

abbrev create : Bytes → CurlTransportOptions → Result Unit ℕ
create host o = ok 8
