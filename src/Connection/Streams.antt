-- ===== src/Connection/Streams.antt =====
-- The stream ids of a connection: `Connection.__init__`, `get_request_id`, `send_msg` and
-- `process_msg` of cassandra/connection.py, `HostConnection.borrow_connection` and
-- `return_connection` of cassandra/pool.py, and `ResponseFuture._on_timeout` of
-- cassandra/cluster.py. The threads of the driver interleave at the connection's lock: each event
-- is a part that the lock makes atomic.
pub mod Ids
pub mod Safety
pub mod LateResponse
use Prim.Native.Nat.{min}
use python_driver.Prelude.{
  ℕ, zero, suc, ◌+◌, ◌-◌, ◌^◌, Bool, true, false, Option, none, some, List, [], ◌∷◌, ◌++◌, leb,
  ◌==◌, if◌then◌else◌,
}

-- `request_ids` is the deque, `requests` maps a stream id to the request whose callback it holds.
pub record Connection : Type 0 where
  pub max_request_id : ℕ
  pub request_ids : List ℕ
  pub highest_request_id : ℕ
  pub in_flight : ℕ
  pub requests : List (ℕ × ℕ)

-- `range(n)`, from `start`
unfoldable pub range_from : ℕ → ℕ → List ℕ
range_from start zero = []
range_from start (suc n) = start ∷ range_from (start + 1) n

-- `Connection.__init__`
unfoldable pub init : ℕ → ℕ → Connection
init protocol_version max_in_flight =
    if leb 3 protocol_version
    then record {
      max_request_id = min (max_in_flight - 1) (2 ^ 15 - 1);
      request_ids = range_from 0 (min 300 max_in_flight);
      highest_request_id = min 300 max_in_flight - 1;
      in_flight = 0;
      requests = [];
    }
    else record {
      max_request_id = min max_in_flight (2 ^ 7 - 1);
      request_ids = range_from 0 (min max_in_flight (2 ^ 7 - 1) + 1);
      highest_request_id = min max_in_flight (2 ^ 7 - 1);
      in_flight = 0;
      requests = [];
    }

-- `self._requests[k] = r`
unfoldable pub assign : ℕ → ℕ → List (ℕ × ℕ) → List (ℕ × ℕ)
assign k r [] = (k, r) ∷ []
assign k r ((j, s) ∷ d) = if j == k then (k, r) ∷ d else (j, s) ∷ assign k r d

-- `self._requests.pop(k)`: what it returns, none for a KeyError, and what is left.
unfoldable pub request_at : ℕ → List (ℕ × ℕ) → Option ℕ
request_at k [] = none
request_at k ((j, s) ∷ d) = if j == k then some s else request_at k d

unfoldable pub remove_request : ℕ → List (ℕ × ℕ) → List (ℕ × ℕ)
remove_request k [] = []
remove_request k ((j, s) ∷ d) =
    let rest = remove_request k d in if j == k then rest else (j, s) ∷ rest

-- `get_request_id`: `popleft`, or else the next id above the highest; none is the AssertionError.
unfoldable pub take_id : Connection → List ℕ → Option (ℕ × Connection)
take_id c (k ∷ ks) = some (k, record c { request_ids = ks })
take_id c [] =
    let next = c.highest_request_id + 1 in
    if leb next c.max_request_id then some (next, record c { highest_request_id = next }) else none

unfoldable pub get_request_id : Connection → Option (ℕ × Connection)
get_request_id c = take_id c c.request_ids

pub data Borrowed : Type 0 where
  got : ℕ → Connection → Borrowed
  all_in_use : Borrowed
  assertion_error : Borrowed

-- The locked part of `borrow_connection`: `all_in_use` waits and tries again, or times out.
unfoldable pub borrow : Connection → Borrowed
borrow c =
    if leb c.in_flight c.max_request_id
    then (elim (get_request_id (record c { in_flight = c.in_flight + 1 })) [
      | none ↦ assertion_error
      | some (k, c') ↦ got k c'
    ])
    else all_in_use

-- `send_msg` on a connection that is open: the callback is registered and the message is written.
unfoldable pub send_msg : Connection → ℕ → ℕ → Connection
send_msg c k r = record c { requests = assign k r c.requests }

-- `process_msg` for a stream id that is not negative: the request whose callback is called, if any.
unfoldable pub process_msg : Connection → ℕ → Option ℕ × Connection
process_msg c k = elim (request_at k c.requests) [
  | none ↦ (none, c)
  | some r ↦ (
    some r,
    record c { requests = remove_request k c.requests; request_ids = c.request_ids ++ k ∷ [] },
  )
]

-- `return_connection`, while the connection works.
unfoldable pub return_connection : Connection → Connection
return_connection c = record c { in_flight = c.in_flight - 1 }

-- `_on_timeout` of a request with the stream id `k`, whose pool is open.
unfoldable pub on_timeout : Connection → ℕ → Connection
on_timeout c k = elim (request_at k c.requests) [
  | none ↦ c
  | some r ↦
      return_connection
        (record c { requests = remove_request k c.requests; request_ids = c.request_ids ++ k ∷ [] })
]

-- A connection and its users: the ids that a thread has borrowed and not sent on yet, and how many
-- callbacks have been called and not returned the connection yet.
pub record System : Type 0 where
  pub conn : Connection
  pub handed : List ℕ
  pub returning : ℕ

pub data Event : Type 0 where
  borrows : Event
  sends : ℕ → ℕ → Event
  responds : ℕ → Event
  returns : Event
  times_out : ℕ → Event

-- `k in handed`, and the ids without it
unfoldable pub holds : ℕ → List ℕ → Bool
holds k [] = false
holds k (j ∷ js) = if j == k then true else holds k js

unfoldable pub without : ℕ → List ℕ → List ℕ
without k [] = []
without k (j ∷ js) = let rest = without k js in if j == k then rest else j ∷ rest

unfoldable pub after_borrow : System → Borrowed → Option System
after_borrow s (got k c) = some (record s { conn = c; handed = k ∷ s.handed })
after_borrow s all_in_use = some s
after_borrow s assertion_error = none

unfoldable pub after_response : System → Option ℕ × Connection → System
after_response s (none, c) = record s { conn = c }
after_response s (some r, c) = record s { conn = c; returning = s.returning + 1 }

-- One event; none is an AssertionError. A thread sends only on an id that it holds, and a callback
-- returns the connection once.
unfoldable pub step : System → Event → Option System
step s borrows = after_borrow s (borrow s.conn)
step s (sends k r) = some (
    if holds k s.handed
    then record s { conn = send_msg s.conn k r; handed = without k s.handed }
    else s)
step s (responds k) = some (after_response s (process_msg s.conn k))
step s returns = some (
    if leb 1 s.returning
    then record s { conn = return_connection s.conn; returning = s.returning - 1 }
    else s)
step s (times_out k) = some (record s { conn = on_timeout s.conn k })

unfoldable pub run : System → List Event → Option System
run s [] = some s
run s (e ∷ es) = elim (step s e) [ none ↦ none | some s' ↦ run s' es ]
