-- ===== src/Connection/Streams/Safety.antt =====
-- The allocation of stream ids in Connection/Streams.antt is safe: an id has one user, and the
-- assertion in `get_request_id` does not fail.
use python_driver.Prelude.{
  ℕ, ◌+◌, ◌-◌, ◌≤◌, ◌≡◌, refl, ap, inl, inr, true, some, List, [], ◌∷◌, ◌++◌, arith, leb, length,
  length-append, if◌then◌else◌, Bool-cases, Option-cases,
}
use Prim.Native.Nat.{min}
use python_driver.Connection.Streams.{
  Connection, System, Event, borrows, sends, responds, returns, times_out, init, take_id,
  get_request_id, borrow, send_msg, process_msg, return_connection, on_timeout, after_borrow,
  after_response, step, run, request_at, remove_request, assign, holds, without,
}
use python_driver.Connection.Streams.Ids.{
  occurs, registered, registered-nil, occurs-nil, occurs-cons, occurs-append, occurs-range_from,
  length-range_from, occurs-without, length-without, holds-occurs, registered-assign, length-assign,
  registered-remove_request, length-remove_request, registered_of_request_at,
}

-- `owned`: an id up to the highest is free, registered for one request, or held by one thread, and
-- no other id is in use. `counted`: `in_flight` counts the ids in use and the connections that
-- callbacks have still to return.
pub record Inv (s : System) : Type 0 where
  pub owned :
      (k : ℕ)
      → occurs k s.conn.request_ids + registered k s.conn.requests + occurs k s.handed
        ≤ (if leb k s.conn.highest_request_id then 1 else 0)
  pub all_ids :
      length s.conn.request_ids + length s.conn.requests + length s.handed
      ≡ s.conn.highest_request_id + 1
  pub counted : length s.conn.requests + length s.handed + s.returning ≡ s.conn.in_flight
  pub bounded : s.conn.highest_request_id ≤ s.conn.max_request_id

abbrev pub Goes : System → Event → Type 0
Goes s e = (s' : System) × (step s e ≡ some s') × Inv s'

borrow-Inv : (s : System) (free : List ℕ) → s.conn.request_ids ≡ free → Inv s → Goes s borrows
unfolding step borrow get_request_id take_id after_borrow
borrow-Inv s [] e v = elim (Bool-cases (leb s.conn.in_flight s.conn.max_request_id)) [
  | inr full ↦ (s, rw full, v)
  | inl room ↦
      let next = s.conn.highest_request_id + 1 in
      let fits : leb next s.conn.max_request_id ≡ true =
        ground (arith, v.all_ids, v.counted, ap (length {0}) e) in
      (
        record s {
          conn = record s.conn {
            request_ids = [];
            in_flight = s.conn.in_flight + 1;
            highest_request_id = next;
          };
          handed = next ∷ s.handed;
        },
        rw (room, e, take_id, fits, after_borrow)
            (ap
              (λ ks. some (record s {
                conn = record s.conn {
                  request_ids = ks;
                  in_flight = s.conn.in_flight + 1;
                  highest_request_id = next;
                };
                handed = next ∷ s.handed;
              }))
              e),
        record {
          owned = λ k.
              ground (arith, v.owned k, occurs-cons k next s.handed, occurs-nil k, ap (occurs k) e);
          all_ids = omega (arith, v.all_ids, ap (length {0}) e);
          counted = omega (arith, v.counted);
          bounded = ground arith;
        },
      )
]
borrow-Inv s (j ∷ js) e v = elim (Bool-cases (leb s.conn.in_flight s.conn.max_request_id)) [
  | inr full ↦ (s, rw full, v)
  | inl room ↦ (
    record s {
      conn = record s.conn { in_flight = s.conn.in_flight + 1; request_ids = js };
      handed = j ∷ s.handed;
    },
    rw (room, e, take_id, after_borrow),
    record {
      owned = λ k.
          ground (arith, v.owned k, occurs-cons k j s.handed, occurs-cons k j js, ap (occurs k) e);
      all_ids = omega (arith, v.all_ids, ap (length {0}) e);
      counted = omega (arith, v.counted);
      bounded = v.bounded;
    },
  )
]

module _ (s : System) (v : Inv s) where
  sends-Inv : (k r : ℕ) → Goes s (sends k r)
  unfolding step send_msg
  sends-Inv k r = elim (Bool-cases (holds k s.handed)) [
    | inr other ↦ (s, rw other, v)
    | inl held ↦
        let one : 1 ≤ occurs k s.handed = ground (arith, holds-occurs k s.handed) in
        let new : registered k s.conn.requests ≡ 0 = ground (arith, v.owned k) in
        (
          record s {
            conn = record s.conn { requests = assign k r s.conn.requests };
            handed = without k s.handed;
          },
          rw held,
          record {
            owned = λ j. ground (
              arith,
              v.owned j,
              registered-assign j k r s.conn.requests,
              occurs-without j k s.handed,
            );
            all_ids = ground (
              arith,
              v.all_ids,
              v.owned k,
              length-assign k r s.conn.requests,
              length-without k s.handed,
            );
            counted = ground (
              arith,
              v.counted,
              v.owned k,
              length-assign k r s.conn.requests,
              length-without k s.handed,
            );
            bounded = v.bounded;
          },
        )
  ]

  -- The id goes back to the deque.
  freed : ℕ → ℕ → ℕ → System
  freed k in_flight returning = record s {
    conn = record s.conn {
      requests = remove_request k s.conn.requests;
      request_ids = s.conn.request_ids ++ k ∷ [];
      in_flight = in_flight;
    };
    returning = returning;
  }

  freed-Inv :
      (k r in_flight returning : ℕ)
      → request_at k s.conn.requests ≡ some r
      → in_flight + s.returning + 1 ≡ s.conn.in_flight + returning
      → Inv (freed k in_flight returning)
  unfolding freed
  freed-Inv k r in_flight returning e sum =
      let some_time = registered_of_request_at k s.conn.requests r e in
      record {
        owned = λ j. ground (
          arith,
          v.owned j,
          registered-remove_request j k s.conn.requests,
          occurs-append j s.conn.request_ids (k ∷ []),
          occurs-cons j k [],
          occurs-nil j,
          some_time,
        );
        all_ids = ground (
          arith,
          v.all_ids,
          v.owned k,
          length-remove_request k s.conn.requests,
          some_time,
          length-append s.conn.request_ids (k ∷ []),
        );
        counted =
            ground (
              arith,
              v.counted,
              v.owned k,
              length-remove_request k s.conn.requests,
              some_time,
              sum,
            );
        bounded = v.bounded;
      }

  responds-Inv : (k : ℕ) → Goes s (responds k)
  unfolding step process_msg after_response freed
  responds-Inv k = elim (Option-cases (request_at k s.conn.requests)) [
    | inl unknown ↦ (s, rw (unknown, process_msg, after_response), v)
    | inr (r, e) ↦ (
      freed k s.conn.in_flight (s.returning + 1),
      rw (e, process_msg, after_response),
      freed-Inv k r s.conn.in_flight (s.returning + 1) e (omega arith),
    )
  ]

  times_out-Inv : (k : ℕ) → Goes s (times_out k)
  unfolding step on_timeout return_connection freed
  times_out-Inv k = elim (Option-cases (request_at k s.conn.requests)) [
    | inl unknown ↦ (s, rw (unknown, on_timeout), v)
    | inr (r, e) ↦
        let busy : 1 ≤ s.conn.in_flight = ground (
          arith,
          v.counted,
          v.owned k,
          length-remove_request k s.conn.requests,
          registered_of_request_at k s.conn.requests r e,
        ) in
        (
          freed k (s.conn.in_flight - 1) s.returning,
          rw (e, on_timeout),
          freed-Inv k r (s.conn.in_flight - 1) s.returning e (omega arith),
        )
  ]

  returns-Inv : Goes s returns
  unfolding step return_connection
  returns-Inv = elim (Bool-cases (leb 1 s.returning)) [
    | inr idle ↦ (s, rw idle, v)
    | inl waiting ↦ (
      record s {
        conn = record s.conn { in_flight = s.conn.in_flight - 1 };
        returning = s.returning - 1;
      },
      rw waiting,
      record {
        owned = v.owned;
        all_ids = v.all_ids;
        counted = ground (arith, v.counted);
        bounded = v.bounded;
      },
    )
  ]

  step-Inv : (e : Event) → Goes s e
  step-Inv borrows = borrow-Inv s s.conn.request_ids refl v
  step-Inv (sends k r) = sends-Inv k r
  step-Inv (responds k) = responds-Inv k
  step-Inv returns = returns-Inv
  step-Inv (times_out k) = times_out-Inv k

abbrev pub start : Connection → System
start c = record { conn = c; handed = []; returning = 0 }

init-Inv :
    (protocol_version max_in_flight : ℕ)
    → 1 ≤ max_in_flight
    → Inv (start (init protocol_version max_in_flight))
unfolding init
init-Inv protocol_version m h = elim (Bool-cases (leb 3 protocol_version)) [
  | inl newer ↦ rw newer (record {
    owned = λ k. ground (arith, occurs-range_from k 0 (min 300 m), registered-nil k, occurs-nil k);
    all_ids = omega (arith, length-range_from 0 (min 300 m));
    counted = omega arith;
    bounded = omega arith;
  })
  | inr older ↦ rw older (record {
    owned =
        λ k. ground (arith, occurs-range_from k 0 (min m 127 + 1), registered-nil k, occurs-nil k);
    all_ids = omega (arith, length-range_from 0 (min m 127 + 1));
    counted = omega arith;
    bounded = omega arith;
  })
]

pub run-Inv : (es : List Event) (s : System) → Inv s → (s' : System) × (run s es ≡ some s') × Inv s'
unfolding run
run-Inv [] s v = (s, refl, v)
run-Inv (e ∷ es) s v =
    let (s', stepped, v') = step-Inv s v e in
    let (s'', ran, v'') = run-Inv es s' v' in (s'', rw (stepped, run) ran, v'')

-- From a new connection, whatever the threads borrow, send, return and time out and whatever
-- stream ids the server answers on, no assertion fails; every stream id is at most
-- `max_request_id`, and has at most one user: it is free, held by one thread, or registered for one
-- request; and `in_flight` is the number of ids in use and of callbacks still to return.
pub stream_ids_are_safe :
    (protocol_version max_in_flight : ℕ) (es : List Event)
    → 1 ≤ max_in_flight
    → (s : System) × (run (start (init protocol_version max_in_flight)) es ≡ some s) × Inv s
stream_ids_are_safe protocol_version max_in_flight es h =
    run-Inv es (start (init protocol_version max_in_flight))
      (init-Inv protocol_version max_in_flight h)
