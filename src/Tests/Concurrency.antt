-- ===== src/Tests/Concurrency.antt =====
-- Tests of Concurrent.
use python_driver.Prelude.{
  ℕ, ◌+◌, ◌≤◌, ◌≡◌, refl, ◌⊎◌, true, false, Option, none, some, List, [], ◌∷◌, length, map, leb,
  ◌==◌, if◌then◌else◌,
}
use python_driver.Concurrent
use python_driver.Concurrent.{
  ExecutionResult, Event, completes, runs_submitted, init, start, expected, results, raised, waits,
  returned, Executor,
}
use python_driver.Concurrent.Sorting.{upto}
use python_driver.Concurrent.Kept.{pending}
use python_driver.Concurrent.Complete.{state, results_complete}
use python_driver.Concurrent.Ends.{happens, AllHappen, remaining, at_most_total}

-- The second of three statements is refused by `execute_async`.
abbrev raises : ℕ → Option ℕ
raises i = if i == 1 then some 9 else none

abbrev outcome : ℕ → ExecutionResult
outcome i = record { success = true; result_or_exc = i }

abbrev events : List Event
events = completes 2 ∷ completes 0 ∷ []

results_complete_example :
    ((exc : ℕ) × (results (state raises outcome 3 false 1 events) ≡ raised exc) × (false ≡ true))
    ⊎ (((results (state raises outcome 3 false 1 events) ≡ waits)
          × (1 ≤ pending (state raises outcome 3 false 1 events)))
        ⊎ (results (state raises outcome 3 false 1 events)
            ≡ returned (map (expected raises outcome) (upto 0 3))))
results_complete_example = results_complete raises outcome 3 false 1 events

concurrent_program : Unit {0}
unfolding init Concurrent.remove Concurrent.contains Concurrent.failed_result Concurrent.add_result
    Concurrent.first_exception Concurrent.taken expected Concurrent.execute_next
    Concurrent.put_result start Concurrent.step Concurrent.run Concurrent.insert_sorted
    Concurrent.sorted Concurrent.second Concurrent.finish results state happens AllHappen
concurrent_program = tt

-- The results are in the order of the statements.
events_returned :
    results (state raises outcome 3 false 1 events)
    ≡ returned (outcome 0 ∷ record { success = false; result_or_exc = 9 } ∷ outcome 2 ∷ [])
unfolding concurrent_program
events_returned = refl

-- A success takes the next statement also when an exception is there already.
goes_on :
    Executor.next (
      state
        (λ i. none)
        (λ i. record { success = leb 1 i; result_or_exc = i })
        5
        true
        1
        (completes 0 ∷ completes 1 ∷ []))
    ≡ 3
unfolding concurrent_program
goes_on = refl

at_most_total_example : length events + remaining (state raises outcome 3 false 1 events) ≤ 3
unfolding concurrent_program
at_most_total_example = at_most_total raises outcome false 3 1 events (refl, (refl, tt))
