-- ===== src/ResponseFuture/Steps.antt =====
-- What the handlers of ResponseFuture.antt do to the work that is left and to the budget of messages.
use python_driver.Prelude.{
  ℕ, ◌+◌, ◌≤◌, ◌≡◌, inl, inr, Bool, true, false, Option, none, some, [], ◌∷◌, if◌then◌else◌, arith,
  length-append, Bool-cases,
}
use python_driver.Policies.Retry.{
  ConsistencyLevel, Failure, Verdict, Decision, retry, rethrow, ignore, retry_next_host,
}
use python_driver.ResponseFuture.{
  Cause, Message, execute, prepare, Response, rows, set_keyspace, schema_change, overloaded,
  is_bootstrapping, error_message, connection_exception, exception, unexpected_message, failed,
  unprepared, Preparation, Task, retry_task, reprepare, execute_after_prepare, finish_schema,
  Future, Pools, query, send_request, set_final_exception, set_final_result, submit, retry_request,
  decide, obey, server_error, unexpected, set_result, receive, is_some, InTime,
}
use python_driver.ResponseFuture.Sending.{
  total-append, follow_up, task_weight, budget, alive, query-Sends, query_sent, query-budget,
  send_over-Sends, send_over-budget, send_over_alive,
}

-- The PREPARE messages that a response asks for, with the one that follows.
abbrev pub extra : Response → ℕ
extra (unprepared true) = 2
extra _ = 0

-- `in_time` says that the time of the request does not run out while hosts are tried. `g` comes from `f`
-- by handling one response or running one task: if it does not, something is left to do, or the pools set a
-- keyspace, or the request is finished; and messages are written only for a retry or a PREPARE.
pub record Handles (in_time : Bool) (f g : Future) (more : ℕ) : Type 0 where
  pub left : in_time ≡ true → 1 ≤ alive g + g.keyspace_changes
  pub counted : is_some g.final_exception ≡ true → 1 ≤ g.exceptions
  pub bounded : budget g + f.query_retries ≤ budget f + g.query_retries + more

module _ {in_time : Bool} (f : Future) (h : ℕ)
    (c : is_some f.final_exception ≡ true → 1 ≤ f.exceptions) where
  retry_request-Handles :
      (reuse : Bool) (level : Option ConsistencyLevel)
      → Handles in_time f (retry_request f reuse level h) (task_weight (retry_task reuse h))
  unfolding retry_request submit
  retry_request-Handles reuse none = ground (
    arith,
    length-append f.tasks (retry_task reuse h ∷ []),
    total-append task_weight f.tasks (retry_task reuse h ∷ []),
    c,
  )
  retry_request-Handles reuse (some level) = ground (
    arith,
    length-append f.tasks (retry_task reuse h ∷ []),
    total-append task_weight f.tasks (retry_task reuse h ∷ []),
    c,
  )

  submit-Handles : (t : Task) → Handles in_time f (submit f t) (task_weight t)
  unfolding submit
  submit-Handles t =
      ground (arith, length-append f.tasks (t ∷ []), total-append task_weight f.tasks (t ∷ []), c)

  change-Handles : Handles in_time f (record f { keyspace_changes = f.keyspace_changes + 1 }) 0
  change-Handles = ground (arith, c)

  pub final-Handles : (cause : Cause) → Handles in_time f (set_final_exception f cause) 0
  unfolding set_final_exception
  final-Handles cause = ground arith

  pub result-Handles : Handles in_time f (set_final_result f) 0
  unfolding set_final_result
  result-Handles = ground arith

decide-Handles :
    {in_time : Bool} (f : Future) (h : ℕ)
    → (is_some f.final_exception ≡ true → 1 ≤ f.exceptions)
    → (d : Decision) (level : Option ConsistencyLevel) → Handles in_time f (decide f h d level) 0
unfolding decide
decide-Handles {in_time} f h c retry level =
    let g =
      retry_request-Handles {in_time = in_time} (record f { query_retries = f.query_retries + 1 }) h
        c true level in
    record { left = g.left; counted = g.counted; bounded = omega (arith, g.bounded) }
decide-Handles {in_time} f h c retry_next_host level =
    let g =
      retry_request-Handles {in_time = in_time} (record f { query_retries = f.query_retries + 1 }) h
        c false level in
    record { left = g.left; counted = g.counted; bounded = omega (arith, g.bounded) }
decide-Handles {in_time} f h c rethrow level = final-Handles f h c server_error
decide-Handles {in_time} f h c ignore level = result-Handles f h c

module _ {in_time : Bool} (policy : Failure → ℕ → Verdict) where
  set_result-Handles :
      (f : Future) (h : ℕ) (r : Response)
      → (is_some f.final_exception ≡ true → 1 ≤ f.exceptions)
      → Handles in_time f (set_result policy f h r) (extra r)
  unfolding set_result obey
  set_result-Handles f h rows c = result-Handles f h c
  set_result-Handles f h set_keyspace c = change-Handles f h c
  set_result-Handles f h schema_change c = submit-Handles f h c finish_schema
  set_result-Handles f h overloaded c = retry_request-Handles f h c false none
  set_result-Handles f h is_bootstrapping c = retry_request-Handles f h c false none
  set_result-Handles f h (failed failure) c =
      let verdict = policy failure f.query_retries in
      let g = decide-Handles {in_time = in_time} f h c verdict.0 verdict.1 in
      record { left = g.left; counted = g.counted; bounded = g.bounded }
  set_result-Handles f h (unprepared true) c = submit-Handles f h c (reprepare h)
  set_result-Handles f h (unprepared false) c = final-Handles f h c server_error
  set_result-Handles f h error_message c = final-Handles f h c server_error
  set_result-Handles f h connection_exception c = retry_request-Handles f h c false none
  set_result-Handles f h exception c = final-Handles f h c server_error
  set_result-Handles f h unexpected_message c = final-Handles f h c unexpected

  -- A response to the message `m`, which is no longer in flight.
  pub receive-Handles :
      (f : Future) (m : Message) (r : Response) (p : Preparation)
      → (is_some f.final_exception ≡ true → 1 ≤ f.exceptions)
      → Handles in_time f (receive policy f m r p) (extra r + follow_up m)
  unfolding receive
  receive-Handles f (execute h) r p c =
      let g = set_result-Handles f h r c in
      record { left = g.left; counted = g.counted; bounded = omega (arith, g.bounded) }
  receive-Handles f (prepare h) r p c =
      let g = submit-Handles {in_time = in_time} f h c (execute_after_prepare h p) in
      record { left = g.left; counted = g.counted; bounded = omega (arith, g.bounded) }

module _ {in_time : Bool} (pools : Pools) (ok : in_time ≡ true → InTime pools) (f : Future)
    (c : is_some f.final_exception ≡ true → 1 ≤ f.exceptions) where
  pub send_request-Handles : Handles in_time f (send_request pools true f) 0
  unfolding send_request
  send_request-Handles =
      let s = send_over-Sends pools true f f.query_plan in
      record {
        left = λ i. omega (arith, send_over_alive pools (ok i) f f.query_plan);
        counted = s.counted c;
        bounded = omega (arith, send_over-budget pools true f f.query_plan, s.same_retries);
      }

module _ {in_time : Bool} (pools : Pools) (ok : in_time ≡ true → InTime pools) (f : Future)
    (c : is_some f.final_exception ≡ true → 1 ≤ f.exceptions) where
  -- `_query`, and `send_request` if it returned None.
  pub query_or_send-Handles :
      (m : Message)
      → Handles in_time f
          (if (query pools f m).1
            then (query pools f m).0
            else send_request pools true (query pools f m).0)
          (1 + follow_up m)
  query_or_send-Handles m =
      let s = query-Sends pools f m in
      let g = send_request-Handles pools ok (query pools f m).0 (s.counted c) in
      elim (Bool-cases (query pools f m).1) [
        | inl sent ↦ rw sent (record {
          left = λ i. omega (arith, query_sent pools f m sent);
          counted = s.counted c;
          bounded = ground (arith, query-budget pools f m, s.same_retries);
        })
        | inr missed ↦ rw missed (record {
          left = g.left;
          counted = g.counted;
          bounded = ground (arith, g.bounded, query-budget pools f m, s.same_retries);
        })
      ]
