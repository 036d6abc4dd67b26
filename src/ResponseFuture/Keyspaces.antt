-- ===== src/ResponseFuture/Keyspaces.antt =====
-- `_set_keyspace_for_all_pools` of Session in cassandra/cluster.py with `_set_keyspace_for_all_conns` of HostConnection
-- in cassandra/pool.py: what a request that was answered with SET KEYSPACE waits for. Pools are numbers.
use python_driver.Prelude.{
  ℕ, ◌≡◌, Bool, true, false, not, Option, none, some, List, [], ◌∷◌, if◌then◌else◌,
}
use python_driver.Pool.{contains, without}

-- What a pool's test in `_set_keyspace_for_all_conns` reads.
pub record PoolState : Type 0 where
  pub is_shutdown : Bool
  pub is_connected : Bool

-- `pending` are the pools whose connection sets the keyspace; `called` says that the callback was called, and whether
-- it was given no error.
pub record Change : Type 0 where
  pub remaining_callbacks : List ℕ
  pub pending : List ℕ
  pub called : Option Bool

-- `_set_keyspace_for_all_conns` returns without a word, or asks its connection.
unfoldable pub asks : PoolState → Bool
asks s = if s.is_shutdown then false else s.is_connected

unfoldable pub asked : (ℕ → PoolState) → List ℕ → List ℕ
asked states [] = []
asked states (k ∷ ks) = let rest = asked states ks in if asks (states k) then k ∷ rest else rest

unfoldable pub no_pools : List ℕ → Option Bool
no_pools [] = some true
no_pools (k ∷ ks) = none

unfoldable pub set_keyspace_for_all_pools : (ℕ → PoolState) → List ℕ → Change
set_keyspace_for_all_pools states pools = record {
  remaining_callbacks = pools;
  pending = asked states pools;
  called = no_pools pools;
}

-- `callback(host_errors)` when no pool remains
unfoldable pub call_back : List ℕ → Bool → Option Bool → Option Bool
call_back [] failed called = some (not failed)
call_back (k ∷ ks) failed called = called

-- `pool_finished_setting_keyspace`; `failed` says that the connection of the pool reported an error.
unfoldable pub pool_finished : Change → ℕ → Bool → Change
pool_finished c k failed = record c {
  remaining_callbacks = without k c.remaining_callbacks;
  pending = without k c.pending;
  called = call_back (without k c.remaining_callbacks) failed c.called;
}

-- The replies of the connections, in the order in which they come.
unfoldable pub run : Change → List (ℕ × Bool) → Change
run c [] = c
run c ((k, failed) ∷ replies) =
    run (if contains k c.pending then pool_finished c k failed else c) replies

-- The pool remains and is not going to reply.
record Waits (j : ℕ) (c : Change) : Type 0 where
  pub remains : contains j c.remaining_callbacks ≡ true
  pub silent : contains j c.pending ≡ false
  pub uncalled : c.called ≡ none
