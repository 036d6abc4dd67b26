-- ===== src/Pool/Connections.antt =====
-- HostConnectionPool of cassandra/pool.py: how connections are created, replaced, trashed and closed. Each event
-- is a section under the lock of the pool, and what goes with it. Connections are numbers; the outcomes of
-- `connection_factory` and the answers of the cluster are arguments of the events. A connection is borrowed
-- and counted as in Connection/Streams.
pub mod Bounds
pub mod Stranded
use python_driver.Prelude.{
  ℕ, zero, suc, ◌+◌, ◌-◌, Bool, true, false, ◌||◌, leb, ltb, ◌==◌, List, [], ◌∷◌, ◌++◌,
  if◌then◌else◌, length,
}
use python_driver.Prelude.Int.{ℤ, pos, negsuc}

-- `create_tasks` and `replace_tasks` are the submitted calls of `_create_new_connection` and
-- `_retrying_replace`, `creating` and `replacing` those that open a connection. `signaled` are the connections
-- with `signaled_error`, `opened` those that are not closed.
pub record HostPool : Type 0 where
  pub is_shutdown : Bool
  pub open_count : ℤ
  pub scheduled_for_creation : ℕ
  pub connections : List ℕ
  pub trash : List ℕ
  pub create_tasks : ℕ
  pub replace_tasks : ℕ
  pub creating : ℕ
  pub replacing : ℕ
  pub signaled : List ℕ
  pub opened : List ℕ

-- `__init__`, with the connections that the factory gave.
unfoldable pub init : List ℕ → HostPool
init conns = record {
  is_shutdown = false;
  open_count = pos (length conns);
  scheduled_for_creation = 0;
  connections = conns;
  trash = [];
  create_tasks = 0;
  replace_tasks = 0;
  creating = 0;
  replacing = 0;
  signaled = [];
  opened = conns;
}

unfoldable pub increment : ℤ → ℤ
increment (pos n) = pos (n + 1)
increment (negsuc zero) = pos 0
increment (negsuc (suc n)) = negsuc n

unfoldable pub decrease : ℤ → ℕ → ℤ
decrease (pos n) m = if leb m n then pos (n - m) else negsuc (m - n - 1)
decrease (negsuc n) m = negsuc (n + m)

-- `z >= n` and `z > n`
unfoldable pub at_least : ℤ → ℕ → Bool
at_least (pos m) n = leb n m
at_least (negsuc m) n = false

unfoldable pub exceeds : ℤ → ℕ → Bool
exceeds (pos m) n = ltb n m
exceeds (negsuc m) n = false

unfoldable pub contains : ℕ → List ℕ → Bool
contains c [] = false
contains c (d ∷ ds) = elim (c == d) [ true ↦ true | false ↦ contains c ds ]

unfoldable pub remove : ℕ → List ℕ → List ℕ
remove c [] = []
remove c (d ∷ ds) = elim (c == d) [ true ↦ ds | false ↦ d ∷ remove c ds ]

unfoldable pub close_all : List ℕ → List ℕ → List ℕ
close_all [] opened = opened
close_all (c ∷ cs) opened = close_all cs (remove c opened)

unfoldable pub shutdown : HostPool → HostPool
shutdown p = if p.is_shutdown then p else record p {
  is_shutdown = true;
  open_count = decrease p.open_count (length p.connections);
  opened = close_all p.trash (close_all p.connections p.opened);
}

-- What `connection_factory` and `set_keyspace_blocking` come to: a connection; a ConnectionException or a
-- socket.error, and whether the host is down then; AuthenticationFailed; another exception.
pub data Attempt : Type 0 where
  connected : ℕ → Attempt
  refused : Bool → Attempt
  authentication_failed : Attempt
  other_exception : Attempt

-- `_add_conn_if_under_max` behind the first locked section.
unfoldable pub add_conn : Attempt → HostPool → HostPool
add_conn (connected c) p = record p {
  connections = p.connections ++ c ∷ [];
  opened = p.opened ++ c ∷ [];
}
add_conn (refused is_down) p =
    let q = record p { open_count = decrease p.open_count 1 } in if is_down then shutdown q else q
add_conn authentication_failed p = record p { open_count = decrease p.open_count 1 }
add_conn other_exception p = p

-- The result of `_add_conn_if_under_max`, with False for an exception.
unfoldable pub is_added : Attempt → Bool
is_added (connected c) = true
is_added (refused is_down) = false
is_added authentication_failed = false
is_added other_exception = false

unfoldable pub close_conn : ℕ → HostPool → HostPool
close_conn c p = record p { opened = remove c p.opened }

-- `_replace`
unfoldable pub replace : ℕ → HostPool → HostPool
replace c p =
    if contains c p.connections
    then close_conn c (record p {
      connections = remove c p.connections;
      open_count = decrease p.open_count 1;
      replace_tasks = p.replace_tasks + 1;
    })
    else close_conn c p

-- `return_connection` of a connection that is defunct or closed
unfoldable pub return_failed : ℕ → Bool → HostPool → HostPool
return_failed c is_down p =
    if contains c p.signaled
    then p
    else (let q = record p { signaled = c ∷ p.signaled } in
        if is_down then shutdown q else replace c q)

-- `return_connection` of a trashed connection; `idle` says that nothing is in flight on it.
unfoldable pub return_trashed : ℕ → Bool → HostPool → HostPool
return_trashed c idle p = if idle then close_conn c (record p { trash = remove c p.trash }) else p

pub data Event : Type 0 where
  spawns : Event
  ensures_core : Event
  begins_create : Event
  begins_replace : Event
  ends_create : Attempt → Event
  ends_replace : Attempt → Event
  returns_failed : ℕ → Bool → Event
  returns_trashed : ℕ → Bool → Event
  trashes : ℕ → Bool → Event
  shuts_down : Event

module _ (core_conns max_conns : ℕ) where
  unfoldable pub schedule : ℕ → HostPool → HostPool
  schedule n p = record p {
    scheduled_for_creation = p.scheduled_for_creation + n;
    create_tasks = p.create_tasks + n;
  }

  -- `_maybe_spawn_new_connection`
  unfoldable pub maybe_spawn : HostPool → HostPool
  maybe_spawn p =
      if leb 1 p.scheduled_for_creation || at_least p.open_count max_conns then p else schedule 1 p

  -- `ensure_core_connections`, and `borrow_connection` on an empty pool: `range` of a negative number is empty.
  unfoldable pub ensure_core_connections : HostPool → HostPool
  ensure_core_connections p =
      if p.is_shutdown
      then p
      else schedule (core_conns - (length p.connections + p.scheduled_for_creation)) p

  -- The first locked section of `_add_conn_if_under_max` does not return.
  unfoldable pub may_open : HostPool → Bool
  may_open p = if p.is_shutdown || at_least p.open_count max_conns then false else true

  unfoldable pub begin_create : HostPool → HostPool
  begin_create p =
      if may_open p
      then record p {
        create_tasks = p.create_tasks - 1;
        open_count = increment p.open_count;
        creating = p.creating + 1;
      }
      else record p {
        create_tasks = p.create_tasks - 1;
        scheduled_for_creation = p.scheduled_for_creation - 1;
      }

  unfoldable pub begin_replace : HostPool → HostPool
  begin_replace p =
      if may_open p
      then record p {
        replace_tasks = p.replace_tasks - 1;
        open_count = increment p.open_count;
        replacing = p.replacing + 1;
      }
      else record p { replace_tasks = p.replace_tasks - 1 }

  unfoldable pub end_create : Attempt → HostPool → HostPool
  end_create a p = add_conn a (record p {
    creating = p.creating - 1;
    scheduled_for_creation = p.scheduled_for_creation - 1;
  })

  -- `_retrying_replace` submits itself again.
  unfoldable pub end_replace : Attempt → HostPool → HostPool
  end_replace a p =
      let q = add_conn a (record p { replacing = p.replacing - 1 }) in
      if is_added a then q else record q { replace_tasks = q.replace_tasks + 1 }

  -- `_maybe_trash_connection`
  unfoldable pub maybe_trash : ℕ → Bool → HostPool → HostPool
  maybe_trash c idle p =
      if contains c p.connections
      then (if exceeds p.open_count core_conns
          then (let q = record p {
            open_count = decrease p.open_count 1;
            connections = remove c p.connections;
          } in
              if idle then close_conn c q else record q { trash = c ∷ q.trash })
          else p)
      else p

  -- A task that is not there does not run. The tests of `return_connection` on the load and the time are the choice
  -- of the event `trashes`.
  unfoldable pub step : HostPool → Event → HostPool
  step p spawns = maybe_spawn p
  step p ensures_core = ensure_core_connections p
  step p begins_create = if leb 1 p.create_tasks then begin_create p else p
  step p begins_replace = if leb 1 p.replace_tasks then begin_replace p else p
  step p (ends_create a) = if leb 1 p.creating then end_create a p else p
  step p (ends_replace a) = if leb 1 p.replacing then end_replace a p else p
  step p (returns_failed c is_down) = return_failed c is_down p
  step p (returns_trashed c idle) = if contains c p.trash then return_trashed c idle p else p
  step p (trashes c idle) =
      if ltb core_conns (length p.connections) then maybe_trash c idle p else p
  step p shuts_down = shutdown p

  unfoldable pub run : HostPool → List Event → HostPool
  run p [] = p
  run p (e ∷ es) = run (step p e) es
