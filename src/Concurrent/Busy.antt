-- ===== src/Concurrent/Busy.antt =====
-- The executor of Concurrent.antt does not stall.
use python_driver.Prelude.{
  ℕ, zero, suc, ◌+◌, ◌≤◌, ◌≡◌, refl, sym, ◌∙◌, Bool, true, false, ltb, Option, none, some, List, [],
  ◌∷◌, if◌then◌else◌, length-append, arith, inl, inr, ◌⊎◌, Bool-cases, Option-cases,
}
use python_driver.Concurrent.{
  ExecutionResult, Executor, remove, contains, failed_result, add_result, first_exception, taken,
  execute_next, put_result, start, expected, Event, completes, runs_submitted, step, run,
  max_error_recursion,
}
use python_driver.Concurrent.Kept.{pending, left-add_result}

-- Something is pending unless every statement is taken, or the executor fails fast and an exception is there.
unfoldable pub IsBusy : Bool → Executor → Type 0
IsBusy fail_fast s =
    ((exc : ℕ) × (s.exception ≡ some exc) × (fail_fast ≡ true))
    ⊎ ((s.exception ≡ none) × ((s.left ≡ 0) ⊎ (1 ≤ pending s)))

stops_fast :
    (success fail_fast : Bool) → (if success then false else fail_fast) ≡ true → fail_fast ≡ true
stops_fast true fail_fast e = absurd (ground arith)
stops_fast false fail_fast e = e

set_exception : (o : Option ℕ) (exc : ℕ) → (e : ℕ) × (first_exception o exc ≡ some e)
unfolding first_exception
set_exception none exc = (exc, refl)
set_exception (some old) exc = (old, refl)

module _ (raises : ℕ → Option ℕ) (outcome : ℕ → ExecutionResult) where
  -- `b` is `fail_fast`, by another name.
  module _ (fail_fast b : Bool) (same : fail_fast ≡ b) where
    pub execute_next-IsBusy :
        (n depth : ℕ) (s : Executor)
        → s.left ≡ n
        → s.exception ≡ none
        → IsBusy b (execute_next raises outcome fail_fast n depth s)
    unfolding execute_next IsBusy pending taken add_result
    execute_next-IsBusy zero depth s l x = inr (x, inl l)
    execute_next-IsBusy (suc n) depth s l x = elim (Option-cases (raises s.next)) [
      | inl e ↦
          rw (execute_next, e)
            (inr (x, inr (omega (arith, length-append s.in_flight (s.next ∷ [])))))
      | inr (exc, e) ↦ elim (Bool-cases (ltb (depth + 1) max_error_recursion)) [
        | inr d ↦
            rw (execute_next, e, d)
              (inr (x, inr (omega (arith, length-append s.submitted (s.next ∷ [])))))
        | inl d ↦
            let next = add_result s.next (failed_result exc) (taken n s) in
            elim (Bool-cases fail_fast) [
              | inl f ↦
                  let (old, q) = set_exception s.exception exc in
                  rw (execute_next, e, d, f) (inl (old, q, sym same ∙ f))
              | inr f ↦
                  let ih = execute_next-IsBusy n (depth + 1) next (left-add_result n s exc) x in
                  rw (execute_next, e, d, f) ih
            ]
      ]
    ]

    put_result-IsBusy :
        (i : ℕ) (r : ExecutionResult) (s : Executor)
        → s.exception ≡ none
        → IsBusy b (put_result raises outcome fail_fast i r s)
    unfolding put_result IsBusy add_result
    put_result-IsBusy i r s x = elim (Bool-cases (if r.success then false else fail_fast)) [
      | inl f ↦
          let (old, q) = set_exception s.exception r.result_or_exc in
          rw (put_result, f) (inl (old, q, sym same ∙ stops_fast r.success fail_fast f))
      | inr f ↦ rw (put_result, f) (execute_next-IsBusy s.left 0 (add_result i r s) refl x)
    ]

    execute_next-exception :
        (n depth : ℕ) (s : Executor) (old : ℕ)
        → s.exception ≡ some old
        → (execute_next raises outcome fail_fast n depth s).exception ≡ some old
    unfolding execute_next taken add_result first_exception
    execute_next-exception zero depth s old x = x
    execute_next-exception (suc n) depth s old x = elim (Option-cases (raises s.next)) [
      | inl e ↦ rw (execute_next, e) x
      | inr (exc, e) ↦ elim (Bool-cases (ltb (depth + 1) max_error_recursion)) [
        | inr d ↦ rw (execute_next, e, d) x
        | inl d ↦
            let next = add_result s.next (failed_result exc) (taken n s) in
            elim (Bool-cases fail_fast) [
              | inl f ↦ rw (execute_next, e, d, f, x, first_exception)
              | inr f ↦
                  let ih = execute_next-exception n (depth + 1) next old x in
                  rw (execute_next, e, d, f) ih
            ]
      ]
    ]

    put_result-keeps :
        (i : ℕ) (r : ExecutionResult) (s : Executor) (old : ℕ)
        → s.exception ≡ some old
        → (put_result raises outcome fail_fast i r s).exception ≡ some old
    unfolding put_result add_result first_exception
    put_result-keeps i r s old x = elim (Bool-cases (if r.success then false else fail_fast)) [
      | inl f ↦ rw (put_result, f, x, first_exception)
      | inr f ↦ rw (put_result, f) (execute_next-exception s.left 0 (add_result i r s) old x)
    ]

    put_result-stays :
        (i : ℕ) (r : ExecutionResult) (s t : Executor)
        → s.exception ≡ t.exception
        → IsBusy b t
        → IsBusy b (put_result raises outcome fail_fast i r s)
    unfolding IsBusy
    put_result-stays i r s t q (inl (exc, x, f)) = inl (exc, put_result-keeps i r s exc (q ∙ x), f)
    put_result-stays i r s t q (inr (x, h)) = put_result-IsBusy i r s (q ∙ x)

    next_stays :
        (s : Executor) → IsBusy b s → IsBusy b (execute_next raises outcome fail_fast s.left 0 s)
    unfolding IsBusy
    next_stays s (inl (exc, x, f)) = inl (exc, execute_next-exception s.left 0 s exc x, f)
    next_stays s (inr (x, h)) = execute_next-IsBusy s.left 0 s refl x

    step-IsBusy :
        (s : Executor) (e : Event) → IsBusy b s → IsBusy b (step raises outcome fail_fast s e)
    unfolding step
    step-IsBusy s (completes i) h = elim (Bool-cases (contains i s.in_flight)) [
      | inl c ↦
          rw (step, c)
            (put_result-stays i (outcome i) (record s { in_flight = remove i s.in_flight }) s refl
              h)
      | inr c ↦ rw (step, c) h
    ]
    step-IsBusy s (runs_submitted i) h = elim (Bool-cases (contains i s.submitted)) [
      | inl c ↦
          rw (step, c)
            (put_result-stays i (expected raises outcome i)
              (record s { submitted = remove i s.submitted }) s refl h)
      | inr c ↦ rw (step, c) h
    ]

    pub start-IsBusy :
        (n : ℕ) (s : Executor) → IsBusy b s → IsBusy b (start raises outcome fail_fast n s)
    unfolding start
    start-IsBusy zero s h = h
    start-IsBusy (suc n) s h =
        start-IsBusy n (execute_next raises outcome fail_fast s.left 0 s) (next_stays s h)

    pub run-IsBusy :
        (s : Executor) (es : List Event) → IsBusy b s → IsBusy b (run raises outcome fail_fast s es)
    unfolding run
    run-IsBusy s [] h = h
    run-IsBusy s (e ∷ es) h = run-IsBusy (step raises outcome fail_fast s e) es (step-IsBusy s e h)
