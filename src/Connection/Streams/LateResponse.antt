-- ===== src/Connection/Streams/LateResponse.antt =====
-- What becomes of a response that arrives after its request has timed out (Connection/Streams.antt).
use python_driver.Prelude.{ℕ, ◌+◌, ◌-◌, ◌≤◌, ◌≡◌, ◌∙◌, true, some, [], ◌∷◌, arith, leb}
use python_driver.Connection.Streams.{
  System, borrows, sends, times_out, get_request_id, take_id, borrow, send_msg, process_msg,
  return_connection, on_timeout, after_borrow, step, run, request_at, remove_request, assign, holds,
  without,
}
use python_driver.Connection.Streams.Ids.{request_at-assign}

module _ (s : System) (k r other : ℕ) where
  timed_out : System
  timed_out = record s {
    conn = record s.conn {
      requests = remove_request k s.conn.requests;
      request_ids = k ∷ [];
      in_flight = s.conn.in_flight - 1;
    };
  }

  reborrowed : System
  reborrowed = record s {
    conn = record s.conn {
      requests = remove_request k s.conn.requests;
      request_ids = [];
      in_flight = s.conn.in_flight - 1 + 1;
    };
    handed = k ∷ s.handed;
  }

  reused : System
  reused = record s {
    conn = record s.conn {
      requests = assign k other (remove_request k s.conn.requests);
      request_ids = [];
      in_flight = s.conn.in_flight - 1 + 1;
    };
    handed = without k s.handed;
  }

  times_out_lem :
      request_at k s.conn.requests ≡ some r
      → s.conn.request_ids ≡ []
      → step s (times_out k) ≡ some timed_out
  unfolding step on_timeout return_connection timed_out
  times_out_lem e empty = rw (e, on_timeout, empty)

  borrows_lem :
      s.conn.in_flight ≤ s.conn.max_request_id + 1 → step timed_out borrows ≡ some reborrowed
  unfolding step borrow get_request_id take_id after_borrow timed_out reborrowed
  borrows_lem h =
      let room : leb (s.conn.in_flight - 1) s.conn.max_request_id ≡ true = ground arith in rw room

  sends_lem : step reborrowed (sends k other) ≡ some reused
  unfolding step send_msg holds without reborrowed reused
  sends_lem = ground arith

  reused_lem : (process_msg reused.conn k).0 ≡ some other
  unfolding process_msg reused
  reused_lem =
      let e : request_at k (assign k other (remove_request k s.conn.requests)) ≡ some other =
        request_at-assign k k other (remove_request k s.conn.requests) ∙ ground arith in
      rw (e, process_msg)

  -- When a request times out while no other stream id is free, its id is the next to be borrowed.
  -- If another request is sent on it, the late response to the first request is given to the
  -- callback of the other one.
  pub late_response_misdelivered :
      request_at k s.conn.requests ≡ some r
      → s.conn.request_ids ≡ []
      → s.conn.in_flight ≤ s.conn.max_request_id + 1
      → (s' : System) × (run s (times_out k ∷ borrows ∷ sends k other ∷ []) ≡ some s')
        × ((process_msg s'.conn k).0 ≡ some other)
  unfolding run
  late_response_misdelivered e empty room =
      (reused, rw (times_out_lem e empty, run, borrows_lem room, sends_lem), reused_lem)
