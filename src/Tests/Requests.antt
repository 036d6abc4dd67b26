-- ===== src/Tests/Requests.antt =====
-- Tests of Connection/Streams and ResponseFuture.
use python_driver.Prelude.{
  not, ◌==◌, ℕ, zero, suc, ◌+◌, ◌≤◌, ◌≡◌, refl, inl, true, false, some, List, [], ◌∷◌, length,
  arith,
}
use python_driver.Connection.Streams
use python_driver.Connection.Streams.{
  Connection, System, Event, borrows, sends, responds, returns, times_out, process_msg,
}
use python_driver.Connection.Streams.Safety.{Inv, start, stream_ids_are_safe}
use python_driver.Connection.Streams.LateResponse.{late_response_misdelivered}
use python_driver.Policies.Retry.{quorum, read_timeout}
use python_driver.Policies.Retry.Default
use python_driver.Policies.Retry.Bounds.{retry_at_most_once}
use python_driver.ResponseFuture
use python_driver.ResponseFuture.{
  own_message, at_capacity, late, overloaded, Pools, written, refused, no_pool, rows, failed,
  unprepared, prepared, answered, runs, speculates,
}
use python_driver.ResponseFuture.Sending.{alive, total}
use python_driver.ResponseFuture.Progress.{begin, extra_messages, messages_bounded}
use python_driver.ResponseFuture.Attempts.{RetriesOnce, messages_when_retried_once}
use python_driver.Pool.{contains, without}
use python_driver.ResponseFuture.Keyspaces
use python_driver.ResponseFuture.Keyspaces.{PoolState, asks, set_keyspace_for_all_pools}
use python_driver.ResponseFuture.Late.{all_written, all_late, stranded_when_late}

abbrev traffic : List Event
traffic =
    borrows
    ∷ borrows
    ∷ sends 1 71
    ∷ responds 1
    ∷ responds 9
    ∷ returns
    ∷ sends 0 70
    ∷ times_out 0
    ∷ []

stream_ids_are_safe_example :
    (s : System) × (Streams.run (start (Streams.init 4 2)) traffic ≡ some s) × Inv s
stream_ids_are_safe_example = stream_ids_are_safe 4 2 traffic (omega arith)

abbrev busy : System
busy = start (record {
  max_request_id = 1;
  request_ids = [];
  highest_request_id = 1;
  in_flight = 2;
  requests = (0, 70) ∷ (1, 71) ∷ [];
})

late_response_misdelivered_example :
    (s' : System) × (Streams.run busy (times_out 1 ∷ borrows ∷ sends 1 99 ∷ []) ≡ some s')
    × ((process_msg s'.conn 1).0 ≡ some 99)
unfolding Streams.request_at
late_response_misdelivered_example = late_response_misdelivered busy 1 71 99 refl refl (omega arith)

-- Host 1 has no pool.
abbrev pools : Pools
pools h = elim h [ suc zero ↦ refused no_pool | _ ↦ written ]

abbrev events : List ResponseFuture.Event
events =
    answered 0 (failed (read_timeout quorum 2 2 false)) prepared
    ∷ runs 0 pools
    ∷ answered 0 (unprepared true) prepared
    ∷ runs 0 pools
    ∷ answered 0 rows prepared
    ∷ runs 0 pools
    ∷ answered 0 rows prepared
    ∷ []

messages_bounded_example :
    length
      (ResponseFuture.run Default.on_failure
        (begin pools (1 ∷ 2 ∷ 3 ∷ []) quorum)
        events).attempted_hosts
    ≤ 3
      + (ResponseFuture.run Default.on_failure
          (begin pools (1 ∷ 2 ∷ 3 ∷ []) quorum)
          events).query_retries
      + total extra_messages events
messages_bounded_example = messages_bounded pools (1 ∷ 2 ∷ 3 ∷ []) quorum Default.on_failure events

default-RetriesOnce : RetriesOnce Default.on_failure
default-RetriesOnce f n h = retry_at_most_once f n (inl h)

messages_when_retried_once_example :
    length
      (ResponseFuture.run Default.on_failure
        (begin pools (1 ∷ 2 ∷ 3 ∷ []) quorum)
        events).attempted_hosts
    ≤ 3 + 1 + total extra_messages events
messages_when_retried_once_example =
    messages_when_retried_once Default.on_failure default-RetriesOnce pools (1 ∷ 2 ∷ 3 ∷ []) quorum
      events

future_program : Unit {0}
unfolding begin ResponseFuture.init ResponseFuture.query ResponseFuture.unless_late
    ResponseFuture.send_over ResponseFuture.send_request ResponseFuture.submit
    ResponseFuture.set_final_result ResponseFuture.set_final_exception ResponseFuture.retry_request
    ResponseFuture.decide ResponseFuture.obey ResponseFuture.set_result ResponseFuture.after_prepare
    ResponseFuture.run_task ResponseFuture.take_out ResponseFuture.receive ResponseFuture.step
    ResponseFuture.run Default.on_failure
future_program = tt

-- Sent to host 2, retried there, prepared again there, and sent there once more.
retried_and_prepared :
    (ResponseFuture.run Default.on_failure
      (begin pools (1 ∷ 2 ∷ 3 ∷ []) quorum)
      events).attempted_hosts
    ≡ 2 ∷ 2 ∷ 2 ∷ 2 ∷ []
unfolding future_program
retried_and_prepared = refl

abbrev later : List ResponseFuture.Event
later = ResponseFuture.times_out (own_message 0) ∷ speculates all_written ∷ []

stranded_when_late_example :
    (alive (
        ResponseFuture.run Default.on_failure
          (begin all_written (4 ∷ 5 ∷ []) quorum)
          (answered 0 overloaded prepared ∷ runs 0 (all_late at_capacity) ∷ later))
      ≡ 0)
    × ((ResponseFuture.run Default.on_failure
          (begin all_written (4 ∷ 5 ∷ []) quorum)
          (answered 0 overloaded prepared ∷ runs 0 (all_late at_capacity) ∷ later)).keyspace_changes
        ≡ 0)
stranded_when_late_example =
    stranded_when_late Default.on_failure 4 5 quorum at_capacity prepared later (tt, (tt, tt))

-- Pool 2 has lost its connection.
abbrev states : ℕ → PoolState
states k = record { is_shutdown = false; is_connected = not (k == 2) }

-- The callback is given the errors of the pool that replies last, and none of the others.
last_errors_only :
    (Keyspaces.run
      (set_keyspace_for_all_pools states (1 ∷ 3 ∷ []))
      ((1, true) ∷ (3, false) ∷ [])).called
    ≡ some true
unfolding Keyspaces.run set_keyspace_for_all_pools Keyspaces.asked asks contains without
    Keyspaces.no_pools Keyspaces.pool_finished Keyspaces.call_back
last_errors_only = refl
