-- ===== src/Pool.antt =====
-- The replacement of a connection by `HostConnection` of cassandra/pool.py: `return_connection` of a
-- defunct or closed connection, `_replace` and `shutdown`. Connections are numbers. The factory's
-- results and the answers of the cluster are arguments of the events. `_replace` is three steps: its test of
-- `is_shutdown`, the assignment of the new connection, and the reset of `_is_replacing`; `return_connection` is two:
-- up to the reset of `_connection`, and its lock; `shutdown` is one step.
pub mod Replacing
pub mod Connections
use python_driver.Prelude.{
  ℕ, ◌+◌, ◌-◌, Bool, true, false, not, ◌&&◌, ◌||◌, leb, ◌==◌, Option, none, some, List, [], ◌∷◌,
  if◌then◌else◌,
}

-- `signaled` are the connections with `signaled_error`. `submitted` counts the tasks `_replace` that wait
-- for the executor, `connecting` those that have passed the test of `is_shutdown`, `installed` those that have set
-- `_connection` and not yet reset `_is_replacing`. `returning` counts the calls of `return_connection` that
-- have reset `_connection` and wait for the lock. `opened` are the connections that the pool has not closed.
pub record Pool : Type 0 where
  pub is_shutdown : Bool
  pub shutdown_on_error : Bool
  pub connection : Option ℕ
  pub is_replacing : Bool
  pub signaled : List ℕ
  pub submitted : ℕ
  pub connecting : ℕ
  pub installed : ℕ
  pub returning : ℕ
  pub opened : List ℕ

-- `__init__`, with the connection that the factory gave.
unfoldable pub init : ℕ → Bool → Pool
init k on_error = record {
  is_shutdown = false;
  shutdown_on_error = on_error;
  connection = some k;
  is_replacing = false;
  signaled = [];
  submitted = 0;
  connecting = 0;
  installed = 0;
  returning = 0;
  opened = k ∷ [];
}

unfoldable pub contains : ℕ → List ℕ → Bool
contains k [] = false
contains k (j ∷ js) = if j == k then true else contains k js

unfoldable pub without : ℕ → List ℕ → List ℕ
without k [] = []
without k (j ∷ js) = let rest = without k js in if j == k then rest else j ∷ rest

-- `if self._connection: self._connection.close()`
unfoldable pub close : Option ℕ → List ℕ → List ℕ
close none opened = opened
close (some k) opened = without k opened

unfoldable pub shutdown : Pool → Pool
shutdown p =
    if p.is_shutdown
    then p
    else record p { is_shutdown = true; opened = close p.connection p.opened; connection = none }

-- The else branch of `return_connection`: the connection is dropped without the lock,
unfoldable pub drop_connection : Pool → Pool
drop_connection p = record p { connection = none; returning = p.returning + 1 }

-- and a replacement is submitted under it, if none is on its way.
unfoldable pub start_replacing : Pool → Pool
start_replacing p =
    if leb 1 p.returning
    then (if p.is_replacing then record p { returning = p.returning - 1 } else record p {
      returning = p.returning - 1;
      is_replacing = true;
      submitted = p.submitted + 1;
    })
    else p

-- `return_connection` of a connection that is defunct or closed; `down` is what
-- `signal_connection_failure` answers, if it is asked.
unfoldable pub return_broken : Pool → ℕ → Bool → Pool
return_broken p k down =
    let known = contains k p.signaled in
    let p' = if known then p else record p { signaled = k ∷ p.signaled } in
    let is_down = (not known && down) || p.shutdown_on_error in
    if known && not p.shutdown_on_error
    then p
    else if is_down
    then shutdown p'
    else drop_connection p'

-- `_replace` up to the end of its first lock.
unfoldable pub begin_replace : Pool → Pool
begin_replace p =
    if leb 1 p.submitted
    then (if p.is_shutdown
        then record p { submitted = p.submitted - 1 }
        else record p { submitted = p.submitted - 1; connecting = p.connecting + 1 })
    else p

-- `_replace` up to its second lock: the factory gives the connection `k`, which is set without the lock, or raises.
unfoldable pub end_replace : Pool → Option ℕ → Pool
end_replace p none =
    if leb 1 p.connecting
    then record p { connecting = p.connecting - 1; submitted = p.submitted + 1 }
    else p
end_replace p (some k) =
    if leb 1 p.connecting
    then record p {
      connecting = p.connecting - 1;
      connection = some k;
      opened = k ∷ p.opened;
      installed = p.installed + 1;
    }
    else p

-- The second lock of `_replace`.
unfoldable pub finish_replace : Pool → Pool
finish_replace p =
    if leb 1 p.installed then record p { installed = p.installed - 1; is_replacing = false } else p

pub data Event : Type 0 where
  returns_broken : ℕ → Bool → Event
  starts_replacing : Event
  begins_replace : Event
  ends_replace : Option ℕ → Event
  finishes_replace : Event
  shuts_down : Event

unfoldable pub step : Pool → Event → Pool
step p (returns_broken k down) = return_broken p k down
step p starts_replacing = start_replacing p
step p begins_replace = begin_replace p
step p (ends_replace o) = end_replace p o
step p finishes_replace = finish_replace p
step p shuts_down = shutdown p

unfoldable pub run : Pool → List Event → Pool
run p [] = p
run p (e ∷ es) = run (step p e) es
