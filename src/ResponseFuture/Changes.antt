-- ===== src/ResponseFuture/Changes.antt =====
-- How often a request of ResponseFuture.antt waits for the pools to set a keyspace.
use python_driver.Prelude.{
  ℕ, ◌+◌, ◌≤◌, ◌≡◌, refl, inl, inr, Bool, true, false, Option, none, some, List, [], ◌∷◌,
  if◌then◌else◌, arith, Option-cases,
}
use python_driver.Policies.Retry.{
  ConsistencyLevel, Failure, Verdict, Decision, retry, rethrow, ignore, retry_next_host,
}
use python_driver.ResponseFuture.{
  Message, execute, prepare, Response, failed, unprepared, set_keyspace, overloaded,
  is_bootstrapping, connection_exception, Preparation, prepared, prepare_connection_exception, Task,
  retry_task, reprepare, execute_after_prepare, finish_schema, Future, Pools, query, send_request,
  set_final_exception, set_final_result, submit, retry_request, decide, obey, set_result,
  after_prepare, run_task, receive, take_out, keyspace_completed, Event, answered, runs, speculates,
  times_out, keyspace_set, step, run,
}
use python_driver.ResponseFuture.Sending.{on_timeout-Sends, total, query-Sends, send_over-Sends}

changes-retry_request :
    (f : Future) (reuse : Bool) (level : Option ConsistencyLevel) (h : ℕ)
    → (retry_request f reuse level h).keyspace_changes ≡ f.keyspace_changes
unfolding retry_request submit
changes-retry_request f reuse none h = ground arith
changes-retry_request f reuse (some c) h = ground arith

changes-decide :
    (f : Future) (h : ℕ) (d : Decision) (level : Option ConsistencyLevel)
    → (decide f h d level).keyspace_changes ≡ f.keyspace_changes
unfolding decide set_final_exception set_final_result
changes-decide f h retry level = changes-retry_request _ true level h
changes-decide f h retry_next_host level = changes-retry_request _ false level h
changes-decide f h rethrow level = refl
changes-decide f h ignore level = refl

module _ (pools : Pools) where
  pub changes-send_request :
      (error_no_hosts : Bool) (f : Future)
      → (send_request pools error_no_hosts f).keyspace_changes ≡ f.keyspace_changes
  unfolding send_request
  changes-send_request e f = (send_over-Sends pools e f f.query_plan).same_changes

  changes-query_or_send :
      (f : Future) (m : Message)
      → (if (query pools f m).1
          then (query pools f m).0
          else send_request pools true (query pools f m).0).keyspace_changes
        ≡ f.keyspace_changes
  changes-query_or_send f m =
      ground
        (arith, (query-Sends pools f m).same_changes, changes-send_request true (query pools f m).0)

  changes-after_prepare :
      (f : Future) (h : ℕ) (p : Preparation)
      → (after_prepare pools f h p).keyspace_changes ≡ f.keyspace_changes
  unfolding after_prepare set_final_exception
  changes-after_prepare f h prepared = changes-query_or_send f (execute h)
  changes-after_prepare f h prepare_connection_exception = changes-send_request true _
  changes-after_prepare f h _ = refl

  changes-run_task :
      (f : Future) (t : Task) → (run_task pools f t).keyspace_changes ≡ f.keyspace_changes
  unfolding run_task set_final_result
  changes-run_task f (retry_task true h) = ground (arith, changes-query_or_send f (execute h))
  changes-run_task f (retry_task false h) = ground (arith, changes-send_request true f)
  changes-run_task f (reprepare h) = changes-query_or_send f (prepare h)
  changes-run_task f (execute_after_prepare h p) = ground (arith, changes-after_prepare f h p)
  changes-run_task f finish_schema = refl

-- Whether a response, and how many of the events, ask the pools to set a keyspace.
abbrev pub asks_for_change : Response → ℕ
asks_for_change set_keyspace = 1
asks_for_change _ = 0

abbrev pub changes_asked : Event → ℕ
changes_asked (answered i r p) = asks_for_change r
changes_asked _ = 0

module _ (policy : Failure → ℕ → Verdict) where
  changes-set_result :
      (f : Future) (h : ℕ) (r : Response)
      → (set_result policy f h r).keyspace_changes ≤ f.keyspace_changes + asks_for_change r
  unfolding set_result submit set_final_result set_final_exception obey
  changes-set_result f h (failed failure) =
      let verdict = policy failure f.query_retries in
      ground (arith, changes-decide f h verdict.0 verdict.1)
  changes-set_result f h (unprepared true) = omega arith
  changes-set_result f h (unprepared false) = omega arith
  changes-set_result f h overloaded = omega (arith, changes-retry_request f false none h)
  changes-set_result f h is_bootstrapping = omega (arith, changes-retry_request f false none h)
  changes-set_result f h connection_exception = omega (arith, changes-retry_request f false none h)
  changes-set_result f h _ = omega arith

  changes-step :
      (e : Event) (f : Future)
      → (step policy f e).keyspace_changes ≤ f.keyspace_changes + changes_asked e
  unfolding step
  changes-step (answered i r p) f = elim (Option-cases (take_out i f.in_flight)) [
    | inl missing ↦ rw (missing, step) (omega arith)
    | inr ((execute h, rest), found) ↦
        rw (found, step) (unfold receive in changes-set_result (record f { in_flight = rest }) h r)
    | inr ((prepare h, rest), found) ↦ rw (found, step) (unfold receive submit in omega arith)
  ]
  changes-step (runs i pools) f = elim (Option-cases (take_out i f.tasks)) [
    | inl missing ↦ rw (missing, step) (omega arith)
    | inr ((t, rest), found) ↦
        rw (found, step) (omega (arith, changes-run_task pools (record f { tasks = rest }) t))
  ]
  changes-step (times_out r) f = omega (arith, (on_timeout-Sends f r).same_changes)
  changes-step (keyspace_set ok) f =
      unfold keyspace_completed set_final_result set_final_exception in ground arith
  changes-step (speculates pools) f = ground (arith, changes-send_request pools false f)

  pub changes-run :
      (es : List Event) (f : Future)
      → (run policy f es).keyspace_changes ≤ f.keyspace_changes + total changes_asked es
  unfolding run
  changes-run [] f = omega arith
  changes-run (e ∷ es) f = omega (arith, changes-step e f, changes-run es (step policy f e))
