-- ===== src/Concurrent/Ends.antt =====
-- `execute_concurrent` comes to an end: each event takes a statement or a result away (Concurrent.antt).
use python_driver.Prelude.{
  ℕ, zero, suc, ◌+◌, ◌≤◌, ◌≡◌, refl, Bool, true, false, ltb, Option, List, [], ◌∷◌, if◌then◌else◌,
  length, length-append, arith, inl, inr, Bool-cases, Option-cases,
}
use python_driver.Concurrent.{
  ExecutionResult, Executor, init, remove, contains, failed_result, add_result, taken, execute_next,
  put_result, start, expected, Event, completes, runs_submitted, step, run, max_error_recursion,
}
use python_driver.Concurrent.Kept.{length-remove, pending}
use python_driver.Concurrent.Complete.{state}

-- The event happens: its statement is in flight, or submitted.
unfoldable pub happens : Executor → Event → Bool
happens s (completes i) = contains i s.in_flight
happens s (runs_submitted i) = contains i s.submitted

unfoldable pub remaining : Executor → ℕ
remaining s = s.left + pending s

module _ (raises : ℕ → Option ℕ) (outcome : ℕ → ExecutionResult) (fail_fast : Bool) where
  unfoldable pub AllHappen : Executor → List Event → Type 0
  AllHappen s [] = Unit {0}
  AllHappen s (e ∷ es) = (happens s e ≡ true) × AllHappen (step raises outcome fail_fast s e) es

  remaining-execute_next :
      (n depth : ℕ) (s : Executor)
      → s.left ≡ n
      → remaining (execute_next raises outcome fail_fast n depth s) ≤ remaining s
  unfolding execute_next remaining pending taken add_result
  remaining-execute_next zero depth s l = omega arith
  remaining-execute_next (suc n) depth s l = elim (Option-cases (raises s.next)) [
    | inl e ↦ rw (execute_next, e) (omega (arith, l, length-append s.in_flight (s.next ∷ [])))
    | inr (exc, e) ↦ elim (Bool-cases (ltb (depth + 1) max_error_recursion)) [
      | inr d ↦ rw (execute_next, e, d) (omega (arith, l, length-append s.submitted (s.next ∷ [])))
      | inl d ↦
          let next = add_result s.next (failed_result exc) (taken n s) in
          elim (Bool-cases fail_fast) [
            | inl f ↦ rw (execute_next, e, d, f) (omega (arith, l))
            | inr f ↦
                let ih = remaining-execute_next n (depth + 1) next refl in
                let ih' : remaining (execute_next raises outcome fail_fast n (depth + 1) next)
                    ≤ remaining s =
                  omega (arith, ih, l) in
                rw (execute_next, e, d, f) ih'
          ]
    ]
  ]

  remaining-put_result :
      (i : ℕ) (r : ExecutionResult) (s : Executor)
      → remaining (put_result raises outcome fail_fast i r s) ≤ remaining s
  unfolding put_result add_result remaining pending
  remaining-put_result i r s = elim (Bool-cases (if r.success then false else fail_fast)) [
    | inl f ↦ rw (put_result, f) (omega arith)
    | inr f ↦ rw (put_result, f) (remaining-execute_next s.left 0 (add_result i r s) refl)
  ]

  remaining-step :
      (s : Executor) (e : Event)
      → happens s e ≡ true
      → remaining (step raises outcome fail_fast s e) + 1 ≤ remaining s
  unfolding step happens remaining pending
  remaining-step s (completes i) h =
      let m = remaining-put_result i (outcome i) (record s { in_flight = remove i s.in_flight }) in
      let l = length-remove i s.in_flight h in rw (step, h) (omega (arith, m, l))
  remaining-step s (runs_submitted i) h =
      let m =
        remaining-put_result i (expected raises outcome i)
          (record s { submitted = remove i s.submitted }) in
      let l = length-remove i s.submitted h in rw (step, h) (omega (arith, m, l))

  remaining-run :
      (s : Executor) (es : List Event)
      → AllHappen s es
      → length es + remaining (run raises outcome fail_fast s es) ≤ remaining s
  unfolding run AllHappen
  remaining-run s [] h = omega arith
  remaining-run s (e ∷ es) h =
      omega
        (arith, remaining-step s e h.0, remaining-run (step raises outcome fail_fast s e) es h.1)

  remaining-start :
      (n : ℕ) (s : Executor) → remaining (start raises outcome fail_fast n s) ≤ remaining s
  unfolding start
  remaining-start zero s = omega arith
  remaining-start (suc n) s = omega (
    arith,
    remaining-start n (execute_next raises outcome fail_fast s.left 0 s),
    remaining-execute_next s.left 0 s refl,
  )

  -- If each event is of a statement that is in flight, or submitted, at its time, there are no more events than
  -- statements, less what is left and pending in the end: every run comes to an end.
  pub at_most_total :
      (total concurrency : ℕ) (es : List Event)
      → AllHappen (start raises outcome fail_fast (suc concurrency) (init total)) es
      → length es + remaining (state raises outcome total fail_fast concurrency es) ≤ total
  unfolding state init remaining pending
  at_most_total total concurrency es h =
      let s0 = start raises outcome fail_fast (suc concurrency) (init total) in
      omega (arith, remaining-run s0 es h, remaining-start (suc concurrency) (init total))
