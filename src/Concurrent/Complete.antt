-- ===== src/Concurrent/Complete.antt =====
-- Every statement of `execute_concurrent` is executed once, and its result is returned in its place
-- (Concurrent.antt).
use python_driver.Prelude.{
  ℕ, suc, ◌≤◌, ◌≡◌, refl, ap, ◌∙◌, Bool, true, ltb, ltb→lt, leb, Option, List, [], ◌∷◌, map, length,
  All, arith, inl, inr, ◌⊎◌, Bool-cases,
}
use python_driver.Concurrent.{
  ExecutionResult, Executor, init, execute_next, start, expected, Event, run, second, insert_sorted,
  sorted, raised, returned, waits, finish, results,
}
use python_driver.Concurrent.Sorting.{
  first, times, times_in, upto, times_in-sorted, sorted-IsSorted, sorted_once,
}
use python_driver.Concurrent.Kept.{
  seen, pending, IsExpected, Inv, at_end, init-Inv, start-Inv, run-Inv,
}
use python_driver.Concurrent.Busy.{IsBusy, execute_next-IsBusy, start-IsBusy, run-IsBusy}

module _ (raises : ℕ → Option ℕ) (outcome : ℕ → ExecutionResult) (total : ℕ) where
  -- What is returned is what each statement gives, in order.
  returned_right :
      (l : List (ℕ × ExecutionResult))
      → All (IsExpected raises outcome total) l
      → map second l ≡ map (expected raises outcome) (map first l)
  unfolding IsExpected second first
  returned_right [] a = refl
  returned_right ((i, r) ∷ l) a = rw (a.0, returned_right l a.1)

  insert_sorted-IsExpected :
      (i : ℕ) (r : ExecutionResult) (l : List (ℕ × ExecutionResult))
      → IsExpected raises outcome total (i, r)
      → All (IsExpected raises outcome total) l
      → All (IsExpected raises outcome total) (insert_sorted (i, r) l)
  unfolding insert_sorted
  insert_sorted-IsExpected i r [] p a = (p, tt)
  insert_sorted-IsExpected i r ((j, q) ∷ l) p a = elim (Bool-cases (leb i j)) [
    | inl e ↦ rw e (p, a)
    | inr e ↦ rw e (a.0, insert_sorted-IsExpected i r l p a.1)
  ]

  sorted-IsExpected :
      (l : List (ℕ × ExecutionResult))
      → All (IsExpected raises outcome total) l
      → All (IsExpected raises outcome total) (sorted l)
  unfolding sorted
  sorted-IsExpected [] a = tt
  sorted-IsExpected ((i, r) ∷ l) a =
      insert_sorted-IsExpected i r (sorted l) a.0 (sorted-IsExpected l a.1)

  empty_of : (l : List ℕ) → length l ≡ 0 → l ≡ []
  empty_of [] e = refl
  empty_of (x ∷ l) e = absurd (omega arith)

  done-sorted :
      (s : Executor)
      → Inv raises outcome total s
      → s.left ≡ 0
      → pending s ≡ 0
      → map second (sorted s.results_queue) ≡ map (expected raises outcome) (upto 0 total)
  unfolding pending seen times
  done-sorted s h l p =
      let f = empty_of s.in_flight (omega (arith, p)) in
      let g = empty_of s.submitted (omega (arith, p)) in
      returned_right (sorted s.results_queue) (sorted-IsExpected s.results_queue h.right)
      ∙ ap (map (expected raises outcome)) (
          sorted_once total 0 (sorted s.results_queue) (sorted-IsSorted s.results_queue) (λ i.
            times_in-sorted i s.results_queue
            ∙ at_end i s.next total (times_in i s.results_queue) (times i s.in_flight)
                (times i s.submitted) (h.once i) (rw f refl) (rw g refl) (omega (arith, h.all, l))))

  -- The state of a run of `execute` with `concurrency + 1` requests at once.
  unfoldable pub state : Bool → ℕ → List Event → Executor
  state fail_fast concurrency es =
      run raises outcome fail_fast (start raises outcome fail_fast (suc concurrency) (init total))
        es

  finished_case :
      (s : Executor) (b : Bool)
      → Inv raises outcome total s
      → IsBusy b s
      → ((exc : ℕ) × (results s ≡ raised exc) × (b ≡ true))
        ⊎ (((results s ≡ waits) × (1 ≤ pending s))
            ⊎ (results s ≡ returned (map (expected raises outcome) (upto 0 total))))
  unfolding results finish IsBusy
  finished_case s b h (inl (exc, x, f)) = inl (exc, rw (x, finish) refl, f)
  finished_case s b h (inr (x, busy)) = elim (Bool-cases (ltb s.current s.exec_count)) [
    | inl w ↦
        inr
          (inl (rw (x, finish, w) refl, omega (arith, ltb→lt s.current s.exec_count w, h.counted)))
    | inr w ↦
        let z : pending s ≡ 0 = let c = h.counted in ground (arith, w, c) in
        let l : s.left ≡ 0 = elim busy [ inl e ↦ e | inr e ↦ absurd (omega (arith, z, e)) ] in
        inr (inr (rw (x, finish, w) (ap returned (done-sorted s h l z))))
  ]

  -- Whatever order the results come in, a run of at least one request at a time has raised an exception, which it does
  -- only if it is to fail fast; or waits, and then a request or a submitted exception is pending; or
  -- returns what each statement gives, in the order of the statements.
  pub results_complete :
      (fail_fast : Bool) (concurrency : ℕ) (es : List Event)
      → ((exc : ℕ) × (results (state fail_fast concurrency es) ≡ raised exc) × (fail_fast ≡ true))
        ⊎ (((results (state fail_fast concurrency es) ≡ waits)
              × (1 ≤ pending (state fail_fast concurrency es)))
            ⊎ (results (state fail_fast concurrency es)
                ≡ returned (map (expected raises outcome) (upto 0 total))))
  unfolding state start init
  results_complete fail_fast concurrency es =
      let s0 = start raises outcome fail_fast (suc concurrency) (init total) in
      finished_case (run raises outcome fail_fast s0 es) fail_fast
        (run-Inv raises outcome total fail_fast s0 es (
          start-Inv raises outcome total fail_fast (suc concurrency) (init total)
            (init-Inv raises outcome total)))
        (run-IsBusy raises outcome fail_fast fail_fast refl s0 es (
          start-IsBusy raises outcome fail_fast fail_fast refl concurrency
            (execute_next raises outcome fail_fast total 0 (init total))
            (execute_next-IsBusy raises outcome fail_fast fail_fast refl total 0 (init total) refl
              refl)))
