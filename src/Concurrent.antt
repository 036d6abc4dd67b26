-- ===== src/Concurrent.antt =====
-- `execute_concurrent` with a list of results: _ConcurrentExecutor and ConcurrentExecutorListResults of
-- cassandra/concurrent.py. An event is atomic, since it holds the lock of `_condition`, which is reentrant.
pub mod Sorting
pub mod Kept
pub mod Busy
pub mod Complete
pub mod Ends
use python_driver.Prelude.{
  ℕ, zero, suc, ◌+◌, Bool, true, false, ltb, leb, ◌==◌, Option, none, some, List, [], ◌∷◌, ◌++◌,
  if◌then◌else◌, map,
}

abbrev pub max_error_recursion : ℕ
max_error_recursion = 100

-- `ExecutionResult(success, result_or_exc)`; what the result or the exception is is a number.
pub record ExecutionResult : Type 0 where
  pub success : Bool
  pub result_or_exc : ℕ

-- `left` statements are still to be taken from `_enum_statements`, and `next` is the index of the first.
-- `in_flight` are the statements whose future has no result, `submitted` those whose exception waits in
-- `session.submit`.
pub record Executor : Type 0 where
  pub left : ℕ
  pub next : ℕ
  pub in_flight : List ℕ
  pub submitted : List ℕ
  pub results_queue : List (ℕ × ExecutionResult)
  pub current : ℕ
  pub exec_count : ℕ
  pub exception : Option ℕ

unfoldable pub init : ℕ → Executor
init n = record {
  left = n;
  next = 0;
  in_flight = [];
  submitted = [];
  results_queue = [];
  current = 0;
  exec_count = 0;
  exception = none;
}

-- `list.remove`
unfoldable pub remove : ℕ → List ℕ → List ℕ
remove i [] = []
remove i (j ∷ js) = elim (i == j) [ true ↦ js | false ↦ j ∷ remove i js ]

unfoldable pub contains : ℕ → List ℕ → Bool
contains i [] = false
contains i (j ∷ js) = elim (i == j) [ true ↦ true | false ↦ contains i js ]

unfoldable pub failed_result : ℕ → ExecutionResult
failed_result exc = record { success = false; result_or_exc = exc }

-- `_put_result` before it goes on.
unfoldable pub add_result : ℕ → ExecutionResult → Executor → Executor
add_result idx r s = record s {
  results_queue = s.results_queue ++ (idx, r) ∷ [];
  current = s.current + 1;
}

unfoldable pub first_exception : Option ℕ → ℕ → Option ℕ
first_exception none exc = some exc
first_exception (some old) exc = some old

-- The next statement is taken.
unfoldable pub taken : ℕ → Executor → Executor
taken n s = record s { left = n; next = s.next + 1; exec_count = s.exec_count + 1 }

pub data Event : Type 0 where
  completes : ℕ → Event
  runs_submitted : ℕ → Event

-- `execute_async` raises for some statements, with an exception; each of the others has an outcome in the end.
module _ (raises : ℕ → Option ℕ) (outcome : ℕ → ExecutionResult) where
  -- What the statement gives in the end.
  unfoldable pub expected : ℕ → ExecutionResult
  expected i = elim (raises i) [ none ↦ outcome i | some exc ↦ failed_result exc ]

  module _ (fail_fast : Bool) where
    -- `_execute_next`, with the `_put_result` of an exception that `execute_async` raises: `n` statements are
    -- left and `depth` is `_exec_depth`.
    unfoldable pub execute_next : ℕ → ℕ → Executor → Executor
    execute_next zero depth s = s
    execute_next (suc n) depth s = elim (raises s.next) [
      | none ↦ record (taken n s) { in_flight = s.in_flight ++ s.next ∷ [] }
      | some exc ↦ elim (ltb (depth + 1) max_error_recursion) [
        | false ↦ record (taken n s) { submitted = s.submitted ++ s.next ∷ [] }
        | true ↦ elim fail_fast [
          | true ↦ record (add_result s.next (failed_result exc) (taken n s)) {
            exception = first_exception s.exception exc;
          }
          | false ↦ execute_next n (depth + 1) (add_result s.next (failed_result exc) (taken n s))
        ]
      ]
    ]

    -- `_put_result` from a callback or from the executor of the session
    unfoldable pub put_result : ℕ → ExecutionResult → Executor → Executor
    put_result idx r s =
        let stops = if r.success then false else fail_fast in
        elim stops [
          | true ↦ record (add_result idx r s) {
            exception = first_exception s.exception r.result_or_exc;
          }
          | false ↦ execute_next s.left 0 (add_result idx r s)
        ]

    -- The loop of `execute`
    unfoldable pub start : ℕ → Executor → Executor
    start zero s = s
    start (suc n) s = start n (execute_next s.left 0 s)

    -- An event of a statement that is not in flight, or not submitted, does not happen.
    unfoldable pub step : Executor → Event → Executor
    step s (completes i) = elim (contains i s.in_flight) [
      | true ↦ put_result i (outcome i) (record s { in_flight = remove i s.in_flight })
      | false ↦ s
    ]
    step s (runs_submitted i) = elim (contains i s.submitted) [
      | true ↦ put_result i (expected i) (record s { submitted = remove i s.submitted })
      | false ↦ s
    ]

    unfoldable pub run : Executor → List Event → Executor
    run s [] = s
    run s (e ∷ es) = run (step s e) es

-- `sorted(self._results_queue)`: the indices differ, so results are not compared.
unfoldable pub insert_sorted :
    ℕ × ExecutionResult → List (ℕ × ExecutionResult) → List (ℕ × ExecutionResult)
insert_sorted (i, r) [] = (i, r) ∷ []
insert_sorted (i, r) ((j, q) ∷ l) =
    if leb i j then (i, r) ∷ (j, q) ∷ l else (j, q) ∷ insert_sorted (i, r) l

unfoldable pub sorted : List (ℕ × ExecutionResult) → List (ℕ × ExecutionResult)
sorted [] = []
sorted (p ∷ l) = insert_sorted p (sorted l)

pub data Outcome : Type 0 where
  waits : Outcome
  raised : ℕ → Outcome
  returned : List ExecutionResult → Outcome

unfoldable pub second : ℕ × ExecutionResult → ExecutionResult
second (i, r) = r

unfoldable pub finish : Option ℕ → Executor → Outcome
finish (some exc) s = raised exc
finish none s =
    if ltb s.current s.exec_count then waits else returned (map second (sorted s.results_queue))

-- `_results`, where it need not wait or has been woken.
unfoldable pub results : Executor → Outcome
results s = finish s.exception s
