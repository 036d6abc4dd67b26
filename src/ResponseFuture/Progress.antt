-- ===== src/ResponseFuture/Progress.antt =====
-- What a request of ResponseFuture.antt waits for, and how many messages it writes.
use python_driver.Prelude.{
  leb, ◌-◌, All, ℕ, ◌+◌, ◌≤◌, ◌≡◌, refl, ap, inl, inr, Bool, true, false, List, [], ◌∷◌,
  if◌then◌else◌, arith, length, Bool-cases, Option-cases,
}
use python_driver.Policies.Retry.{ConsistencyLevel, Failure, Verdict}
use python_driver.ResponseFuture.{
  keyspace_completed, keyspace_set, InTime, unexpected, server_error, keyspace_errors,
  connection_error, execute, prepare, Preparation, prepared, other_result, prepare_error,
  prepare_connection_exception, prepare_unexpected, Task, retry_task, reprepare,
  execute_after_prepare, finish_schema, Future, Pools, send_request, after_prepare, run_task,
  take_out, is_some, is_finished, Event, answered, runs, speculates, times_out, step, run, init,
}
use python_driver.ResponseFuture.Sending.{
  total, total-take_out, follow_up, task_weight, budget, alive, Sends, on_timeout-Sends,
  on_timeout-budget, send_over-Sends, send_over-budget,
}
use python_driver.ResponseFuture.Steps.{
  extra, Handles, receive-Handles, send_request-Handles, query_or_send-Handles, final-Handles,
  result-Handles,
}

-- If the time does not run out while hosts are tried, something is left to do, or the pools set a
-- keyspace, or the request is finished;
-- and every final exception was counted.
pub record IsAlive (in_time : Bool) (f : Future) : Type 0 where
  pub left : in_time ≡ true → 1 ≤ alive f + f.keyspace_changes
  pub counted : is_some f.final_exception ≡ true → 1 ≤ f.exceptions

module _ {in_time : Bool} (pools : Pools) (o : in_time ≡ true → InTime pools) (f : Future)
    (c : is_some f.final_exception ≡ true → 1 ≤ f.exceptions) where
  weaker : (g : Future) (n m : ℕ) → n ≤ m → Handles in_time f g n → Handles in_time f g m
  weaker g n m le h = record {
    left = h.left;
    counted = h.counted;
    bounded = omega (arith, h.bounded);
  }

  after_prepare-Handles :
      (h : ℕ) (p : Preparation) → Handles in_time f (after_prepare pools f h p) 1
  unfolding after_prepare
  after_prepare-Handles h prepared = query_or_send-Handles pools o f c (execute h)
  after_prepare-Handles h other_result = weaker _ 0 1 (omega arith) (final-Handles f h c unexpected)
  after_prepare-Handles h prepare_error =
      weaker _ 0 1 (omega arith) (final-Handles f h c server_error)
  after_prepare-Handles h prepare_connection_exception =
      let g =
        send_request-Handles pools o (record f { errors = (h, connection_error) ∷ f.errors }) c in
      record { left = g.left; counted = g.counted; bounded = omega (arith, g.bounded) }
  after_prepare-Handles h prepare_unexpected =
      weaker _ 0 1 (omega arith) (final-Handles f h c unexpected)

  unless_failed :
      (g : Future) (n : ℕ)
      → Handles in_time f g n
      → Handles in_time f (if is_some f.final_exception then f else g) n
  unless_failed g n h = elim (Bool-cases (is_some f.final_exception)) [
    | inl over ↦
        rw over (record { left = λ i. omega (arith, c over); counted = c; bounded = omega arith })
    | inr open_still ↦ rw open_still h
  ]

  run_task-Handles : (t : Task) → Handles in_time f (run_task pools f t) (task_weight t)
  unfolding run_task
  run_task-Handles (retry_task true h) =
      unless_failed _ 1 (query_or_send-Handles pools o f c (execute h))
  run_task-Handles (retry_task false h) = unless_failed _ 0 (send_request-Handles pools o f c)
  run_task-Handles (reprepare h) = query_or_send-Handles pools o f c (prepare h)
  run_task-Handles (execute_after_prepare h p) = unless_failed _ 1 (after_prepare-Handles h p)
  run_task-Handles finish_schema = result-Handles f 0 c

completed-Handles :
    {in_time : Bool} (f : Future)
    → (is_some f.final_exception ≡ true → 1 ≤ f.exceptions)
    → (ok : Bool) → Handles in_time f (keyspace_completed f ok) 0
unfolding keyspace_completed
completed-Handles f c true = result-Handles f 0 c
completed-Handles f c false = final-Handles f 0 c keyspace_errors

-- The messages that an event asks for beside the plan and the retries.
abbrev pub extra_messages : Event → ℕ
extra_messages (answered i r p) = extra r
extra_messages (runs i pools) = 0
extra_messages (speculates pools) = 0
extra_messages (times_out r) = 0
extra_messages (keyspace_set ok) = 0

pub record Steps (in_time : Bool) (f g : Future) (more : ℕ) : Type 0 where
  pub is_alive : IsAlive in_time g
  pub bounded : budget g + f.query_retries ≤ budget f + g.query_retries + more

-- The time does not run out in the tasks.
abbrev pub InTimeEvent : Event → Type 0
InTimeEvent (answered i r p) = Unit
InTimeEvent (runs i pools) = InTime pools
InTimeEvent (speculates pools) = Unit
InTimeEvent (times_out r) = Unit
InTimeEvent (keyspace_set ok) = Unit

Handles→Steps :
    (in_time : Bool) (f f' g : Future) (n m : ℕ)
    → f'.query_retries ≡ f.query_retries
    → budget f' + n ≤ budget f + m
    → Handles in_time f' g n
    → Steps in_time f g m
Handles→Steps in_time f f' g n m e le h = record {
  is_alive = record { left = h.left; counted = h.counted };
  bounded = omega (arith, h.bounded);
}

Sends→Steps :
    (in_time : Bool) (f g : Future)
    → IsAlive in_time f
    → Sends f g
    → budget g ≤ budget f
    → Steps in_time f g 0
Sends→Steps in_time f g v s le = record {
  is_alive = record {
    left = λ i. omega (
      arith,
      v.left i,
      s.more_left,
      s.same_changes,
      s.same_results,
      ap (length {0}) s.same_tasks,
    );
    counted = s.counted v.counted;
  };
  bounded = omega (arith, s.same_retries);
}

module _ {in_time : Bool} (policy : Failure → ℕ → Verdict) (f : Future)
    (v : IsAlive in_time f) where
  unchanged : (more : ℕ) → Steps in_time f f more
  unchanged more = record { is_alive = v; bounded = omega arith }

  step-Steps :
      (e : Event)
      → (in_time ≡ true → InTimeEvent e)
      → Steps in_time f (step policy f e) (extra_messages e)
  unfolding step
  step-Steps (answered i r p) o = elim (Option-cases (take_out i f.in_flight)) [
    | inl missing ↦ rw (missing, step) (unchanged (extra r))
    | inr ((m, rest), found) ↦
        rw (found, step)
          (Handles→Steps in_time f (record f { in_flight = rest }) _ (extra r + follow_up m)
            (extra r) refl (omega (arith, total-take_out follow_up i f.in_flight m rest found))
            (receive-Handles policy (record f { in_flight = rest }) m r p v.counted))
  ]
  step-Steps (runs i pools) o = elim (Option-cases (take_out i f.tasks)) [
    | inl missing ↦ rw (missing, step) (unchanged 0)
    | inr ((t, rest), found) ↦
        rw (found, step)
          (Handles→Steps in_time f (record f { tasks = rest }) _ (task_weight t) 0 refl
            (omega (arith, total-take_out task_weight i f.tasks t rest found))
            (run_task-Handles pools o (record f { tasks = rest }) v.counted t))
  ]
  step-Steps (times_out r) o =
      Sends→Steps in_time f _ v (on_timeout-Sends f r) (on_timeout-budget f r)
  step-Steps (keyspace_set ok) o = elim (Bool-cases (leb 1 f.keyspace_changes)) [
    | inr none_left ↦ rw none_left (unchanged 0)
    | inl waiting ↦
        let f' : Future = record f { keyspace_changes = f.keyspace_changes - 1 } in
        rw (waiting, step)
          (Handles→Steps in_time f f' _ 0 0 refl (omega arith) (completed-Handles f' v.counted ok))
  ]
  step-Steps (speculates pools) o = elim (Bool-cases (is_finished f)) [
    | inl over ↦ rw over (unchanged 0)
    | inr waiting ↦ rw waiting (
        unfold send_request in
        Sends→Steps in_time f _ v (send_over-Sends pools false f f.query_plan)
          (omega (arith, send_over-budget pools false f f.query_plan)))
  ]

module _ {in_time : Bool} (policy : Failure → ℕ → Verdict) where
  run-budget :
      (es : List Event) (f : Future)
      → (in_time ≡ true → All InTimeEvent es)
      → IsAlive in_time f
      → budget (run policy f es) + f.query_retries
        ≤ budget f + (run policy f es).query_retries + total extra_messages es
  unfolding run
  run-budget [] f o v = omega arith
  run-budget (e ∷ es) f o v =
      let s = step-Steps policy f v e (λ i. (o i).0) in
      omega (arith, s.bounded, run-budget es (step policy f e) (λ i. (o i).1) s.is_alive)

module _ (pools : Pools) (plan : List ℕ) (level : ConsistencyLevel) where
  -- The request after `send_request` in `Session.execute_async`.
  unfoldable pub begin : Future
  begin = send_request pools true (init plan level)

  begin-Handles :
      (in_time : Bool) → (in_time ≡ true → InTime pools) → Handles in_time (init plan level) begin 0
  unfolding begin init
  begin-Handles in_time o = send_request-Handles pools o (init plan level) (λ e. cc)

  begin-IsAlive : (in_time : Bool) → (in_time ≡ true → InTime pools) → IsAlive in_time begin
  begin-IsAlive in_time o =
      let g = begin-Handles in_time o in record { left = g.left; counted = g.counted }

  -- However often hosts fail, time out or lose the statement, the messages that a request writes are
  -- at most one for each host of its plan, one for each retry that the policy ordered, and two for
  -- each answer that the statement is not prepared.
  pub messages_bounded :
      (policy : Failure → ℕ → Verdict) (es : List Event)
      → length (run policy begin es).attempted_hosts
        ≤ length plan + (run policy begin es).query_retries + total extra_messages es
  messages_bounded policy es = omega (
    arith,
    (begin-Handles false (λ i. absurd (ground (arith, i)))).bounded,
    budget-init,
    run-budget {in_time = false} policy es begin (λ i. absurd (ground (arith, i)))
        (begin-IsAlive false (λ i. absurd (ground (arith, i)))),
  )
    where
      budget-init : (budget (init plan level) ≡ length plan) × ((init plan level).query_retries ≡ 0)
      budget-init = unfold init in (omega arith, refl)
