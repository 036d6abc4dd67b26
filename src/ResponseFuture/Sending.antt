-- ===== src/ResponseFuture/Sending.antt =====
-- What `query` and `send_request` of ResponseFuture.antt change.
use python_driver.Prelude.{
  Option-cases, some, inl, inr, ◌⊎◌, zero, suc, refl, ℕ, ◌+◌, ◌≤◌, ◌≡◌, Bool, true, false, List, [],
  ◌∷◌, ◌++◌, if◌then◌else◌, arith, length, length-append,
}
use python_driver.ResponseFuture.{
  Registered, own_message, other_request, take_out, on_timeout, unless_late, late, Outcome, written,
  refused, is_late, InTime, Message, execute, prepare, Task, retry_task, reprepare,
  execute_after_prepare, finish_schema, Future, Pools, host_of, query, send_over,
  set_final_exception, is_some,
}

-- The sum of a number for each member.
abbrev pub total {ℓ} : {A : Type ℓ} → (A → ℕ) → List A → ℕ
total w [] = 0
total w (x ∷ xs) = w x + total w xs

pub total-append {ℓ} :
    {A : Type ℓ} (w : A → ℕ) (xs ys : List A) → total w (xs ++ ys) ≡ total w xs + total w ys
total-append w [] ys = omega arith
total-append w (x ∷ xs) ys = omega (arith, total-append w xs ys)

-- A PREPARE message in flight is followed by one more message at most.
abbrev pub follow_up : Message → ℕ
follow_up (execute h) = 0
follow_up (prepare h) = 1

-- The messages that a task may write without taking a host off the plan.
abbrev pub task_weight : Task → ℕ
task_weight (retry_task true h) = 1
task_weight (retry_task false h) = 0
task_weight (reprepare h) = 2
task_weight (execute_after_prepare h p) = 1
task_weight finish_schema = 0

-- The messages that were written, and those that may still be without another retry or PREPARE.
abbrev pub budget : Future → ℕ
budget f =
    length f.attempted_hosts
    + length f.query_plan
    + total follow_up f.in_flight
    + total task_weight f.tasks

-- The results and exceptions that were set, the messages in flight and the submitted tasks: what the request was
-- finished by, or waits for and is sure to be woken by.
abbrev pub alive : Future → ℕ
alive f = f.results + f.exceptions + length f.in_flight + length f.tasks

-- `g` comes from `f` by writing messages or setting an exception.
pub record Sends (f g : Future) : Type 0 where
  pub same_tasks : g.tasks ≡ f.tasks
  pub same_retries : g.query_retries ≡ f.query_retries
  pub same_changes : g.keyspace_changes ≡ f.keyspace_changes
  pub same_results : g.results ≡ f.results
  pub more_left : length f.in_flight + f.exceptions ≤ length g.in_flight + g.exceptions
  pub more_exceptions : f.exceptions ≤ g.exceptions
  pub counted :
      (is_some f.final_exception ≡ true → 1 ≤ f.exceptions)
      → is_some g.final_exception ≡ true
      → 1 ≤ g.exceptions

pub length-take_out {ℓ} :
    {A : Type ℓ} (i : ℕ) (xs : List A) (y : A) (ys : List A)
    → take_out i xs ≡ some (y, ys)
    → length ys + 1 ≡ length xs
unfolding take_out
length-take_out i [] y ys e = absurd (ground arith)
length-take_out zero (x ∷ xs) y ys e = ground arith
length-take_out (suc i) (x ∷ xs) y ys e = elim (Option-cases (take_out i xs)) [
  | inl missing ↦ absurd (ground arith)
  | inr ((z, zs), found) ↦ ground (arith, length-take_out i xs z zs found)
]

pub total-take_out {ℓ} :
    {A : Type ℓ} (w : A → ℕ) (i : ℕ) (xs : List A) (y : A) (ys : List A)
    → take_out i xs ≡ some (y, ys)
    → total w ys + w y ≡ total w xs
unfolding take_out
total-take_out w i [] y ys e = absurd (ground arith)
total-take_out w zero (x ∷ xs) y ys e = ground arith
total-take_out w (suc i) (x ∷ xs) y ys e = elim (Option-cases (take_out i xs)) [
  | inl missing ↦ absurd (ground arith)
  | inr ((z, zs), found) ↦ ground (arith, total-take_out w i xs z zs found)
]

pub on_timeout-Sends : (f : Future) (r : Registered) → Sends f (on_timeout f r)
unfolding on_timeout set_final_exception
on_timeout-Sends f other_request = ground arith
on_timeout-Sends f (own_message i) = elim (Option-cases (take_out i f.in_flight)) [
  | inl missing ↦ ground arith
  | inr ((m, rest), found) ↦ ground (arith, length-take_out i f.in_flight m rest found)
]

pub on_timeout-budget : (f : Future) (r : Registered) → budget (on_timeout f r) ≤ budget f
unfolding on_timeout set_final_exception
on_timeout-budget f other_request = omega arith
on_timeout-budget f (own_message i) = elim (Option-cases (take_out i f.in_flight)) [
  | inl missing ↦ ground arith
  | inr ((m, rest), found) ↦ ground (arith, total-take_out follow_up i f.in_flight m rest found)
]

unless_late-cases :
    (o : Outcome) (g next : Future)
    → (unless_late o g next ≡ next)
      ⊎ ((i : Registered) × (unless_late o g next ≡ on_timeout g i) × (is_late o ≡ true))
unfolding unless_late
unless_late-cases written g next = inl refl
unless_late-cases (refused c) g next = inl refl
unless_late-cases (late c i) g next = inr (i, refl, refl)

module _ (pools : Pools) where
  pub query-Sends : (f : Future) (m : Message) → Sends f (query pools f m).0
  unfolding query
  query-Sends f m = ground (arith, length-append f.in_flight (m ∷ []))

  pub query_sent :
      (f : Future) (m : Message)
      → (query pools f m).1 ≡ true
      → 1 ≤ length (query pools f m).0.in_flight
  unfolding query
  query_sent f m = ground (arith, length-append f.in_flight (m ∷ []))

  pub query_plan-query : (f : Future) (m : Message) → (query pools f m).0.query_plan ≡ f.query_plan
  unfolding query
  query_plan-query f m = ground arith

  -- A message costs one of the budget, and a PREPARE another one.
  pub query-budget :
      (f : Future) (m : Message)
      → budget (query pools f m).0 ≤ budget f + (if (query pools f m).1 then 1 + follow_up m else 0)
  unfolding query
  query-budget f m = ground (
    arith,
    length-append f.attempted_hosts (host_of m ∷ []),
    total-append follow_up f.in_flight (m ∷ []),
  )

  pub send_over-Sends :
      (error_no_hosts : Bool) (f : Future) (hs : List ℕ)
      → Sends f (send_over pools error_no_hosts f hs)
  unfolding send_over set_final_exception
  send_over-Sends error_no_hosts f [] = ground arith
  send_over-Sends error_no_hosts f (h ∷ hs) =
      let g = (query pools f (execute h)).0 in
      let next = send_over pools error_no_hosts g hs in
      elim (unless_late-cases (pools h) (record g { query_plan = hs }) next) [
        | inl e ↦ ground (arith, e, query-Sends f (execute h), send_over-Sends error_no_hosts g hs)
        | inr (i, e, l) ↦
            ground (
              arith,
              e,
              query-Sends f (execute h),
              on_timeout-Sends (record g { query_plan = hs }) i,
            )
      ]

  pub send_over-budget :
      (error_no_hosts : Bool) (f : Future) (hs : List ℕ)
      → budget (send_over pools error_no_hosts f hs) + length f.query_plan ≤ budget f + length hs
  unfolding send_over set_final_exception
  send_over-budget error_no_hosts f [] = ground arith
  send_over-budget error_no_hosts f (h ∷ hs) =
      let g = (query pools f (execute h)).0 in
      let next = send_over pools error_no_hosts g hs in
      elim (unless_late-cases (pools h) (record g { query_plan = hs }) next) [
        | inl e ↦ ground (
          arith,
          e,
          query-budget f (execute h),
          query_plan-query f (execute h),
          send_over-budget error_no_hosts g hs,
        )
        | inr (i, e, l) ↦ ground (
          arith,
          e,
          query-budget f (execute h),
          query_plan-query f (execute h),
          on_timeout-budget (record g { query_plan = hs }) i,
        )
      ]

  pub send_over_alive :
      InTime pools
      → (f : Future) (hs : List ℕ)
      → 1 ≤ (send_over pools true f hs).exceptions + length (send_over pools true f hs).in_flight
  unfolding send_over set_final_exception
  send_over_alive in_time f [] = ground arith
  send_over_alive in_time f (h ∷ hs) =
      let g = (query pools f (execute h)).0 in
      let next = send_over pools true g hs in
      elim (unless_late-cases (pools h) (record g { query_plan = hs }) next) [
        | inl e ↦ ground (arith, e, query_sent f (execute h), send_over_alive in_time g hs)
        | inr (i, e, l) ↦ absurd (ground (arith, l, in_time h))
      ]
