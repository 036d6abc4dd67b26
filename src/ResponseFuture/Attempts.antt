-- ===== src/ResponseFuture/Attempts.antt =====
-- The messages of a request of ResponseFuture.antt under a policy that retries once.
use python_driver.Prelude.{
  ℕ, ◌+◌, ◌≤◌, ◌≡◌, refl, inl, inr, Bool, true, false, Option, none, some, List, [], ◌∷◌,
  if◌then◌else◌, arith, length, Option-cases,
}
use python_driver.Policies.Retry.{
  ConsistencyLevel, Failure, Verdict, Decision, retry, rethrow, ignore, retry_next_host,
}
use python_driver.Policies.Retry.Bounds.{is_retry}
use python_driver.ResponseFuture.{
  keyspace_completed, keyspace_set, set_keyspace, Message, execute, prepare, Response, failed,
  unprepared, rows, Preparation, prepared, prepare_connection_exception, Task, retry_task,
  reprepare, execute_after_prepare, finish_schema, Future, Pools, query, send_request,
  set_final_exception, set_final_result, submit, retry_request, decide, obey, set_result,
  after_prepare, run_task, receive, take_out, Event, answered, runs, speculates, times_out, step,
  run, init,
}
use python_driver.ResponseFuture.Sending.{on_timeout-Sends, total, query-Sends, send_over-Sends}
use python_driver.ResponseFuture.Progress.{extra_messages, begin, messages_bounded}

-- The policy retries only a request that was not retried before.
abbrev pub RetriesOnce : (Failure → ℕ → Verdict) → Type 0
RetriesOnce policy = (f : Failure) (n : ℕ) → is_retry (policy f n).0 ≡ true → n ≡ 0

retries-retry_request :
    (f : Future) (reuse : Bool) (level : Option ConsistencyLevel) (h : ℕ)
    → (retry_request f reuse level h).query_retries ≡ f.query_retries
unfolding retry_request submit
retries-retry_request f reuse none h = ground arith
retries-retry_request f reuse (some c) h = ground arith

retries-decide :
    (f : Future) (h : ℕ) (d : Decision) (level : Option ConsistencyLevel)
    → (decide f h d level).query_retries
      ≡ (if is_retry d then f.query_retries + 1 else f.query_retries)
unfolding decide set_final_exception set_final_result
retries-decide f h retry level = retries-retry_request _ true level h
retries-decide f h retry_next_host level = retries-retry_request _ false level h
retries-decide f h rethrow level = refl
retries-decide f h ignore level = refl

module _ (pools : Pools) where
  retries-send_request :
      (error_no_hosts : Bool) (f : Future)
      → (send_request pools error_no_hosts f).query_retries ≡ f.query_retries
  unfolding send_request
  retries-send_request e f = (send_over-Sends pools e f f.query_plan).same_retries

  retries-query_or_send :
      (f : Future) (m : Message)
      → (if (query pools f m).1
          then (query pools f m).0
          else send_request pools true (query pools f m).0).query_retries
        ≡ f.query_retries
  retries-query_or_send f m =
      ground
        (arith, (query-Sends pools f m).same_retries, retries-send_request true (query pools f m).0)

  retries-after_prepare :
      (f : Future) (h : ℕ) (p : Preparation)
      → (after_prepare pools f h p).query_retries ≡ f.query_retries
  unfolding after_prepare set_final_exception
  retries-after_prepare f h prepared = retries-query_or_send f (execute h)
  retries-after_prepare f h prepare_connection_exception = retries-send_request true _
  retries-after_prepare f h _ = refl

  retries-run_task : (f : Future) (t : Task) → (run_task pools f t).query_retries ≡ f.query_retries
  unfolding run_task set_final_exception set_final_result
  retries-run_task f (retry_task true h) = ground (arith, retries-query_or_send f (execute h))
  retries-run_task f (retry_task false h) = ground (arith, retries-send_request true f)
  retries-run_task f (reprepare h) = retries-query_or_send f (prepare h)
  retries-run_task f (execute_after_prepare h p) = ground (arith, retries-after_prepare f h p)
  retries-run_task f finish_schema = refl

module _ (policy : Failure → ℕ → Verdict) (once : RetriesOnce policy) where
  retries-set_result :
      (f : Future) (h : ℕ) (r : Response)
      → f.query_retries ≤ 1
      → (set_result policy f h r).query_retries ≤ 1
  unfolding set_result submit set_final_result set_final_exception obey
  retries-set_result f h (failed failure) le =
      let verdict = policy failure f.query_retries in
      ground (arith, retries-decide f h verdict.0 verdict.1, once failure f.query_retries)
  retries-set_result f h (unprepared true) le = le
  retries-set_result f h (unprepared false) le = le
  retries-set_result f h rows le = le
  retries-set_result f h set_keyspace le = le
  retries-set_result f h _ le = ground (arith, retries-retry_request f false none h)

  retries-step :
      (e : Event) (f : Future) → f.query_retries ≤ 1 → (step policy f e).query_retries ≤ 1
  unfolding step
  retries-step (answered i r p) f le = elim (Option-cases (take_out i f.in_flight)) [
    | inl missing ↦ rw (missing, step) le
    | inr ((execute h, rest), found) ↦
        rw (found, step)
          (unfold receive in retries-set_result (record f { in_flight = rest }) h r le)
    | inr ((prepare h, rest), found) ↦ rw (found, step) (unfold receive submit in le)
  ]
  retries-step (runs i pools) f le = elim (Option-cases (take_out i f.tasks)) [
    | inl missing ↦ rw (missing, step) le
    | inr ((t, rest), found) ↦
        rw (found, step) (rw (retries-run_task pools (record f { tasks = rest }) t) le)
  ]
  retries-step (times_out r) f le = omega (arith, (on_timeout-Sends f r).same_retries)
  retries-step (keyspace_set ok) f le =
      unfold keyspace_completed set_final_result set_final_exception in ground arith
  retries-step (speculates pools) f le = ground (arith, retries-send_request pools false f)

  retries-run :
      (es : List Event) (f : Future) → f.query_retries ≤ 1 → (run policy f es).query_retries ≤ 1
  unfolding run
  retries-run [] f le = le
  retries-run (e ∷ es) f le = retries-run es (step policy f e) (retries-step e f le)

  retries-begin :
      (pools : Pools) (plan : List ℕ) (level : ConsistencyLevel)
      → (begin pools plan level).query_retries ≤ 1
  unfolding begin init
  retries-begin pools plan level = omega (arith, retries-send_request pools true (init plan level))

  -- Under a policy that retries once, whatever happens, a request writes at most one message for
  -- each host of its plan, one more, and two for each answer that the statement is not prepared.
  pub messages_when_retried_once :
      (pools : Pools) (plan : List ℕ) (level : ConsistencyLevel) (es : List Event)
      → length (run policy (begin pools plan level) es).attempted_hosts
        ≤ length plan + 1 + total extra_messages es
  messages_when_retried_once pools plan level es = omega (
    arith,
    messages_bounded pools plan level policy es,
    retries-run es (begin pools plan level) (retries-begin pools plan level),
  )
