-- ===== src/Concurrent/Kept.antt =====
-- What holds of the executor of Concurrent.antt between two events: no statement is executed twice or lost.
use mathlib.Core.Path.{subst}
use python_driver.Prelude.{
  ℕ, zero, suc, ◌+◌, ◌≡◌, refl, Bool, true, false, ltb, ◌==◌, Option, none, some, List, [], ◌∷◌,
  ◌++◌, if◌then◌else◌, length, length-append, All, arith, inl, inr, Bool-cases, Option-cases,
}
use python_driver.Concurrent.{
  ExecutionResult, Executor, init, remove, contains, failed_result, add_result, first_exception,
  taken, execute_next, put_result, start, expected, Event, completes, runs_submitted, step, run,
  max_error_recursion,
}
use python_driver.Concurrent.Sorting.{times, times_in}

times-append :
    (i j : ℕ) (l : List ℕ) → times i (l ++ j ∷ []) ≡ times i l + (if i == j then 1 else 0)
unfolding times
times-append i j [] = omega arith
times-append i j (h ∷ l) = omega (arith, times-append i j l)

times_in-append :
    (i j : ℕ) (r : ExecutionResult) (l : List (ℕ × ExecutionResult))
    → times_in i (l ++ (j, r) ∷ []) ≡ times_in i l + (if i == j then 1 else 0)
unfolding times_in
times_in-append i j r [] = omega arith
times_in-append i j r ((h, q) ∷ l) = omega (arith, times_in-append i j r l)

times-remove :
    (i j : ℕ) (l : List ℕ)
    → contains j l ≡ true
    → times i (remove j l) + (if i == j then 1 else 0) ≡ times i l
unfolding times remove contains
times-remove i j [] h = absurd (ground arith)
times-remove i j (m ∷ l) h = elim (Bool-cases (j == m)) [
  | inl e ↦ rw (remove, e) (let q : j ≡ m = ground arith in rw q (omega arith))
  | inr e ↦ rw (remove, e) (omega (arith, times-remove i j l (rw (contains, e) at h)))
]

pub length-remove : (j : ℕ) (l : List ℕ) → contains j l ≡ true → length (remove j l) + 1 ≡ length l
unfolding remove contains
length-remove j [] h = absurd (ground arith)
length-remove j (m ∷ l) h = elim (Bool-cases (j == m)) [
  | inl e ↦ rw (remove, e) (omega arith)
  | inr e ↦ rw (remove, e) (omega (arith, length-remove j l (rw (contains, e) at h)))
]

All-contains : (P : ℕ → Type 0) (i : ℕ) (l : List ℕ) → contains i l ≡ true → All P l → P i
unfolding contains
All-contains P i [] h a = absurd (ground arith)
All-contains P i (j ∷ l) h a = elim (Bool-cases (i == j)) [
  | inl e ↦ let q : j ≡ i = ground arith in subst P q a.0
  | inr e ↦ All-contains P i l (rw (contains, e) at h) a.1
]

All-remove : (P : ℕ → Type 0) (i : ℕ) (l : List ℕ) → All P l → All P (remove i l)
unfolding remove
All-remove P i [] a = tt
All-remove P i (j ∷ l) a = elim (Bool-cases (i == j)) [
  | inl e ↦ rw (remove, e) a.1
  | inr e ↦ rw (remove, e) (a.0, All-remove P i l a.1)
]

All-append {ℓ} :
    {A : Type ℓ} (P : A → Type 0) (l : List A) (x : A) → All P l → P x → All P (l ++ x ∷ [])
All-append P [] x a p = (p, tt)
All-append P (y ∷ l) x a p = (a.0, All-append P l x a.1 p)

-- How often a statement has a result, is in flight or is submitted.
unfoldable pub seen : ℕ → Executor → ℕ
seen i s = times_in i s.results_queue + times i s.in_flight + times i s.submitted

unfoldable pub pending : Executor → ℕ
pending s = length s.in_flight + length s.submitted

pub at_end :
    (i m n t a b : ℕ)
    → t + a + b ≡ (if ltb i m then 1 else 0)
    → a ≡ 0
    → b ≡ 0
    → m ≡ n
    → t ≡ (if ltb i 0 then 0 else (if ltb i (0 + n) then 1 else 0))
at_end i m n t a b e ea eb q = ground arith

-- The statements that are left are what the executor says.
pub left-add_result :
    (n : ℕ) (s : Executor) (exc : ℕ) → (add_result s.next (failed_result exc) (taken n s)).left ≡ n
unfolding add_result taken
left-add_result n s exc = refl

more :
    (i m x y : ℕ)
    → x ≡ (if ltb i m then 1 else 0)
    → y ≡ x + (if i == m then 1 else 0)
    → y ≡ (if ltb i (m + 1) then 1 else 0)
more i m x y e q = ground arith

module _ (raises : ℕ → Option ℕ) (outcome : ℕ → ExecutionResult) (total : ℕ) where
  unfoldable pub IsExpected : ℕ × ExecutionResult → Type 0
  IsExpected (i, r) = r ≡ expected raises outcome i

  pub record Inv (s : Executor) : Type 0 where
    pub once : (i : ℕ) → seen i s ≡ (if ltb i s.next then 1 else 0)
    pub all : s.left + s.next ≡ total
    pub counted : s.current + pending s ≡ s.exec_count
    pub flying : All (λ i. raises i ≡ none) s.in_flight
    pub right : All IsExpected s.results_queue

  pub init-Inv : Inv (init total)
  unfolding init seen pending times times_in
  init-Inv = record {
    once = λ i. ground arith;
    all = omega arith;
    counted = omega arith;
    flying = tt;
    right = tt;
  }

  -- A statement is taken, and put into one of the three lists.
  flies-Inv :
      (n : ℕ) (s : Executor)
      → s.left ≡ suc n
      → raises s.next ≡ none
      → Inv s
      → Inv (record (taken n s) { in_flight = s.in_flight ++ s.next ∷ [] })
  unfolding taken seen pending
  flies-Inv n s l e h = record {
    once = λ i.
        more i s.next (seen i s)
          (times_in i s.results_queue + times i (s.in_flight ++ s.next ∷ []) + times i s.submitted)
          (h.once i) (omega (arith, times-append i s.next s.in_flight));
    all = omega (arith, h.all);
    counted = omega (arith, h.counted, length-append s.in_flight (s.next ∷ []));
    flying = All-append (λ i. raises i ≡ none) s.in_flight s.next h.flying e;
    right = h.right;
  }

  submits-Inv :
      (n : ℕ) (s : Executor)
      → s.left ≡ suc n
      → Inv s
      → Inv (record (taken n s) { submitted = s.submitted ++ s.next ∷ [] })
  unfolding taken seen pending
  submits-Inv n s l h = record {
    once = λ i.
        more i s.next (seen i s)
          (times_in i s.results_queue + times i s.in_flight + times i (s.submitted ++ s.next ∷ []))
          (h.once i) (omega (arith, times-append i s.next s.submitted));
    all = omega (arith, h.all);
    counted = omega (arith, h.counted, length-append s.submitted (s.next ∷ []));
    flying = h.flying;
    right = h.right;
  }

  fails-Inv :
      (n : ℕ) (s : Executor) (exc : ℕ)
      → s.left ≡ suc n
      → raises s.next ≡ some exc
      → Inv s
      → Inv (add_result s.next (failed_result exc) (taken n s))
  unfolding taken seen pending add_result IsExpected expected
  fails-Inv n s exc l e h = record {
    once = λ i.
        more i s.next (seen i s)
          (times_in i (s.results_queue ++ (s.next, failed_result exc) ∷ [])
            + times i s.in_flight
            + times i s.submitted)
          (h.once i) (omega (arith, times_in-append i s.next (failed_result exc) s.results_queue));
    all = omega (arith, h.all);
    counted = omega (arith, h.counted);
    flying = h.flying;
    right =
        All-append IsExpected s.results_queue (s.next, failed_result exc) h.right
          (rw (expected, e) refl);
  }

  -- A result comes of a statement in flight, or of a submitted one.
  arrives-Inv :
      (i : ℕ) (s : Executor) (r : ExecutionResult)
      → contains i s.in_flight ≡ true
      → r ≡ expected raises outcome i
      → Inv s
      → Inv (add_result i r (record s { in_flight = remove i s.in_flight }))
  unfolding seen pending add_result IsExpected
  arrives-Inv i s r c e h = record {
    once = λ k.
        omega
          (arith, h.once k, times-remove k i s.in_flight c, times_in-append k i r s.results_queue);
    all = h.all;
    counted = omega (arith, h.counted, length-remove i s.in_flight c);
    flying = All-remove (λ j. raises j ≡ none) i s.in_flight h.flying;
    right = All-append IsExpected s.results_queue (i, r) h.right e;
  }

  reported-Inv :
      (i : ℕ) (s : Executor) (r : ExecutionResult)
      → contains i s.submitted ≡ true
      → r ≡ expected raises outcome i
      → Inv s
      → Inv (add_result i r (record s { submitted = remove i s.submitted }))
  unfolding seen pending add_result IsExpected
  reported-Inv i s r c e h = record {
    once = λ k.
        omega
          (arith, h.once k, times-remove k i s.submitted c, times_in-append k i r s.results_queue);
    all = h.all;
    counted = omega (arith, h.counted, length-remove i s.submitted c);
    flying = h.flying;
    right = All-append IsExpected s.results_queue (i, r) h.right e;
  }

  pub exception-Inv : (s : Executor) (o : Option ℕ) → Inv s → Inv (record s { exception = o })
  unfolding seen pending
  exception-Inv s o h = record {
    once = h.once;
    all = h.all;
    counted = h.counted;
    flying = h.flying;
    right = h.right;
  }

  module _ (fail_fast : Bool) where
    execute_next-Inv :
        (n depth : ℕ) (s : Executor)
        → s.left ≡ n
        → Inv s
        → Inv (execute_next raises outcome fail_fast n depth s)
    unfolding execute_next
    execute_next-Inv zero depth s l h = h
    execute_next-Inv (suc n) depth s l h = elim (Option-cases (raises s.next)) [
      | inl e ↦ rw (execute_next, e) (flies-Inv n s l e h)
      | inr (exc, e) ↦ elim (Bool-cases (ltb (depth + 1) max_error_recursion)) [
        | inr d ↦ rw (execute_next, e, d) (submits-Inv n s l h)
        | inl d ↦
            let next = add_result s.next (failed_result exc) (taken n s) in
            let k = fails-Inv n s exc l e h in
            elim (Bool-cases fail_fast) [
              | inl f ↦
                  rw (execute_next, e, d, f)
                    (exception-Inv next (first_exception s.exception exc) k)
              | inr f ↦
                  let ih = execute_next-Inv n (depth + 1) next (left-add_result n s exc) k in
                  rw (execute_next, e, d, f) ih
            ]
      ]
    ]

    put_result-Inv :
        (i : ℕ) (r : ExecutionResult) (s : Executor)
        → Inv (add_result i r s)
        → Inv (put_result raises outcome fail_fast i r s)
    unfolding put_result add_result
    put_result-Inv i r s h = elim (Bool-cases (if r.success then false else fail_fast)) [
      | inl f ↦
          rw (put_result, f)
            (exception-Inv (add_result i r s) (first_exception s.exception r.result_or_exc) h)
      | inr f ↦ rw (put_result, f) (execute_next-Inv s.left 0 (add_result i r s) refl h)
    ]

    step-Inv : (s : Executor) (e : Event) → Inv s → Inv (step raises outcome fail_fast s e)
    unfolding step expected
    step-Inv s (completes i) h = elim (Bool-cases (contains i s.in_flight)) [
      | inl c ↦
          let none_raised = All-contains (λ j. raises j ≡ none) i s.in_flight c h.flying in
          let same : outcome i ≡ expected raises outcome i = rw (expected, none_raised) refl in
          rw (step, c)
            (put_result-Inv i (outcome i) (record s { in_flight = remove i s.in_flight })
              (arrives-Inv i s (outcome i) c same h))
      | inr c ↦ rw (step, c) h
    ]
    step-Inv s (runs_submitted i) h = elim (Bool-cases (contains i s.submitted)) [
      | inl c ↦
          rw (step, c)
            (put_result-Inv i (expected raises outcome i)
              (record s { submitted = remove i s.submitted })
              (reported-Inv i s (expected raises outcome i) c refl h))
      | inr c ↦ rw (step, c) h
    ]

    pub start-Inv : (n : ℕ) (s : Executor) → Inv s → Inv (start raises outcome fail_fast n s)
    unfolding start
    start-Inv zero s h = h
    start-Inv (suc n) s h =
        start-Inv n (execute_next raises outcome fail_fast s.left 0 s)
          (execute_next-Inv s.left 0 s refl h)

    pub run-Inv : (s : Executor) (es : List Event) → Inv s → Inv (run raises outcome fail_fast s es)
    unfolding run
    run-Inv s [] h = h
    run-Inv s (e ∷ es) h = run-Inv (step raises outcome fail_fast s e) es (step-Inv s e h)
