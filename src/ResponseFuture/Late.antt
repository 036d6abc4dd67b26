-- ===== src/ResponseFuture/Late.antt =====
-- A request of ResponseFuture.antt whose time runs out inside `send_request`.
use python_driver.Prelude.{
  All, ◌≤◌, leb, false, ℕ, ◌≡◌, refl, inl, inr, none, List, [], ◌∷◌, arith, Bool-cases, ap,
}
use python_driver.Policies.Retry.{ConsistencyLevel, Failure, Verdict}
use python_driver.ResponseFuture.{
  own_message, other_request, keyspace_set, written, Cause, late, overloaded, Preparation, Future,
  Pools, query, on_timeout, unless_late, send_over, send_request, retry_request, submit, set_result,
  receive, take_out, run_task, is_finished, Event, answered, runs, speculates, times_out, step, run,
  init,
}
use python_driver.ResponseFuture.Sending.{alive}
use python_driver.ResponseFuture.Progress.{begin}

abbrev pub all_written : Pools
all_written h = written

abbrev pub all_late : Cause → Pools
all_late c h = late c (own_message 0)

-- The timer does not find the callback of another request.
abbrev pub FindsNoOther : Event → Type 0
FindsNoOther (times_out other_request) = 1 ≤ 0
FindsNoOther _ = Unit

-- The request waits for nothing and has no result and no exception.
record IsStuck (f : Future) : Type 0 where
  pub no_plan : f.query_plan ≡ []
  pub no_message : f.in_flight ≡ []
  pub no_task : f.tasks ≡ []
  pub no_change : f.keyspace_changes ≡ 0
  pub no_result : f.results ≡ 0
  pub no_exception : f.exceptions ≡ 0

take_out_nothing {ℓ} : {A : Type ℓ} (i : ℕ) (xs : List A) → xs ≡ [] → take_out i xs ≡ none
unfolding take_out
take_out_nothing i xs e = ap (take_out i) e

module _ (policy : Failure → ℕ → Verdict) where
  step-IsStuck : (e : Event) (f : Future) → FindsNoOther e → IsStuck f → IsStuck (step policy f e)
  unfolding step on_timeout send_request send_over
  step-IsStuck (answered i r p) f o h = rw (take_out_nothing i f.in_flight h.no_message, step) h
  step-IsStuck (runs i pools) f o h = rw (take_out_nothing i f.tasks h.no_task, step) h
  step-IsStuck (times_out other_request) f o h = absurd (omega (arith, o))
  step-IsStuck (times_out (own_message i)) f o h =
      rw (take_out_nothing i f.in_flight h.no_message, on_timeout) h
  step-IsStuck (keyspace_set ok) f o h =
      let none_left : leb 1 f.keyspace_changes ≡ false = ground (arith, h.no_change) in
      rw none_left h
  step-IsStuck (speculates pools) f o h = elim (Bool-cases (is_finished f)) [
    | inl over ↦ rw over h
    | inr waiting ↦
        rw (waiting, h.no_plan)
          (record {
            no_plan = refl;
            no_message = h.no_message;
            no_task = h.no_task;
            no_change = h.no_change;
            no_result = h.no_result;
            no_exception = h.no_exception;
          })
  ]

  run-IsStuck :
      (es : List Event) (f : Future) → All FindsNoOther es → IsStuck f → IsStuck (run policy f es)
  unfolding run
  run-IsStuck [] f o h = h
  run-IsStuck (e ∷ es) f o h = run-IsStuck es (step policy f e) o.1 (step-IsStuck e f o.0 h)

stuck_lem :
    (policy : Failure → ℕ → Verdict) (first second : ℕ) (level : ConsistencyLevel) (c : Cause)
    (p : Preparation)
    → IsStuck (
        step policy
          (step policy (begin all_written (first ∷ second ∷ []) level) (answered 0 overloaded p))
          (runs 0 (all_late c)))
unfolding begin run step send_request send_over query init take_out receive set_result retry_request
    submit run_task unless_late on_timeout
stuck_lem policy first second level c p = record {
  no_plan = refl;
  no_message = refl;
  no_task = refl;
  no_change = refl;
  no_result = refl;
  no_exception = refl;
}

-- A request with two hosts in its plan is stranded when the first host is overloaded and its time runs
-- out while the second cannot be written to, before its stream id is given to another request: then it
-- has no result and no exception, and waits for nothing, whatever happens, as long as its timer does
-- not find the callback of another request under the stream id.
pub stranded_when_late :
    (policy : Failure → ℕ → Verdict) (first second : ℕ) (level : ConsistencyLevel) (c : Cause)
    (p : Preparation) (es : List Event)
    → All FindsNoOther es
    → (alive (
          run policy
            (begin all_written (first ∷ second ∷ []) level)
            (answered 0 overloaded p ∷ runs 0 (all_late c) ∷ es))
        ≡ 0)
      × ((run policy
            (begin all_written (first ∷ second ∷ []) level)
            (answered 0 overloaded p ∷ runs 0 (all_late c) ∷ es)).keyspace_changes
          ≡ 0)
unfolding run
stranded_when_late policy first second level c p es o =
    let h = run-IsStuck policy es _ o (stuck_lem policy first second level c p) in
    (ground (arith, h.no_message, h.no_task, h.no_result, h.no_exception), h.no_change)
