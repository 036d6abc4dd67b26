-- ===== src/Policies/Retry/Bounds.antt =====
-- What the verdicts of the retry policies can be.
use python_driver.Prelude.{
  ℕ, ◌≤◌, ◌≡◌, ◌⊎◌, Bool, true, false, Option, none, some, arith, ltb, ◌==◌, ◌↔◌, Bool-cases, refl,
  inl, inr,
}
use python_driver.Policies.Retry.{
  ConsistencyLevel, one, two, three, WriteType, simple, batch, unlogged_batch, counter, batch_log,
  Decision, retry, rethrow, ignore, retry_next_host, Failure, read_timeout, write_timeout,
  unavailable,
}
use python_driver.Policies.Retry.Default
use python_driver.Policies.Retry.Downgrading

abbrev pub is_retry : Decision → Bool
is_retry retry = true
is_retry retry_next_host = true
is_retry rethrow = false
is_retry ignore = false

-- How many replicas responded, or are alive.
abbrev pub responded : Failure → ℕ
responded (read_timeout c required received got) = received
responded (write_timeout c w required received) = received
responded (unavailable c required alive) = alive

abbrev pub requested : Failure → ConsistencyLevel
requested (read_timeout c required received got) = c
requested (write_timeout c w required received) = c
requested (unavailable c required alive) = c

-- The replicas that must respond at a level that names their number.
abbrev pub needed : ConsistencyLevel → Option ℕ
needed one = some 1
needed two = some 2
needed three = some 3
needed _ = none

-- Neither the default policy nor the downgrading one retries a request that was retried before.
pub retry_at_most_once :
    (f : Failure) (retry_num : ℕ)
    → ((is_retry (Default.on_failure f retry_num).0 ≡ true)
        ⊎ (is_retry (Downgrading.on_failure f retry_num).0 ≡ true))
    → retry_num ≡ 0
unfolding Default.on_failure Downgrading.on_failure
retry_at_most_once (read_timeout c required received got) n h = ground arith
retry_at_most_once (write_timeout c w required received) n h = ground arith
retry_at_most_once (unavailable c required alive) n h = ground arith

is_batch_log_of :
    (w : WriteType) (c : ConsistencyLevel) (required received n : ℕ)
    → Default.on_write_timeout c w required received n ≡ (retry, some c)
    → w ≡ batch_log
unfolding Default.on_write_timeout
is_batch_log_of batch_log c required received n e = refl
is_batch_log_of _ c required received n e = ground arith

-- When the default policy retries: the first failure of a read that enough replicas answered and none of them with
-- data, and the first failure of a write to the batch log.
abbrev pub IsRetried : Failure → ℕ → Type 0
IsRetried (read_timeout c required received got) n = (n ≡ 0) × (required ≤ received) × (got ≡ false)
IsRetried (write_timeout c w required received) n = (n ≡ 0) × (w ≡ batch_log)
IsRetried (unavailable c required alive) n = 1 ≤ 0

-- When it retries on the next host: at the first failure, if replicas are unavailable.
abbrev pub IsMoved : Failure → ℕ → Type 0
IsMoved (read_timeout c required received got) n = 1 ≤ 0
IsMoved (write_timeout c w required received) n = 1 ≤ 0
IsMoved (unavailable c required alive) n = n ≡ 0

-- The default policy has three verdicts: to retry at the level of the request, exactly at the first timeout of a read
-- that enough replicas answered and none of them with data and at the first timeout of a write to the
-- batch log; to retry on the next host at that level, exactly at the first failure for want of replicas;
-- and otherwise to rethrow.
pub default_retries :
    (f : Failure) (n : ℕ)
    → (((Default.on_failure f n).0 ≡ retry) ↔ IsRetried f n)
      × (((Default.on_failure f n).0 ≡ retry_next_host) ↔ IsMoved f n)
      × ((Default.on_failure f n ≡ (retry, some (requested f)))
          ⊎ (Default.on_failure f n ≡ (retry_next_host, some (requested f)))
          ⊎ (Default.on_failure f n ≡ (rethrow, none)))
unfolding Default.on_failure
default_retries (read_timeout c required received got) n = (
  (λ e. (ground arith, ground arith, ground arith), λ e. ground arith),
  (λ e. ground arith, λ e. ground arith),
  ground arith,
)
default_retries (write_timeout c w required received) n = (
  (λ e. (ground arith, is_batch_log_of w c required received n (ground arith)), λ e. ground arith),
  (λ e. ground arith, λ e. ground arith),
  ground arith,
)
default_retries (unavailable c required alive) n =
    ((λ e. ground arith, λ e. ground arith), (λ e. ground arith, λ e. ground arith), ground arith)

pick_consistency_level :
    (n : ℕ) (c : ConsistencyLevel)
    → Downgrading.pick_consistency n ≡ (retry, some c)
    → (k : ℕ) × (needed c ≡ some k) × (1 ≤ k) × (k ≤ n)
unfolding Downgrading.pick_consistency
pick_consistency_level n one h = (1, refl, omega arith, ground arith)
pick_consistency_level n two h = (2, refl, omega arith, ground arith)
pick_consistency_level n three h = (3, refl, omega arith, ground arith)
pick_consistency_level n _ h = absurd (ground arith)

-- When the downgrading policy retries at a level other than the one requested, that level names a
-- number of replicas, and at least so many have responded or are alive.
pub downgraded_level_is_met :
    (f : Failure) (n : ℕ) (c : ConsistencyLevel)
    → Downgrading.on_failure f n ≡ (retry, some c)
    → (c ≡ requested f) ⊎ ((k : ℕ) × (needed c ≡ some k) × (1 ≤ k) × (k ≤ responded f))
unfolding Downgrading.on_failure
downgraded_level_is_met (read_timeout c' required received got) n c h = elim (Bool-cases (n == 0)) [
  | inr later ↦ absurd (ground arith)
  | inl first ↦ elim (Bool-cases (ltb received required)) [
    | inl few ↦ inr (pick_consistency_level received c (rw (first, few) at h))
    | inr enough ↦ inl (ground arith)
  ]
]
downgraded_level_is_met (write_timeout c' unlogged_batch required received) n c h =
    elim (Bool-cases (n == 0)) [
      | inr later ↦ absurd (ground arith)
      | inl first ↦ inr (pick_consistency_level received c (rw first at h))
    ]
downgraded_level_is_met (write_timeout c' w required received) n c h = inl (ground arith)
downgraded_level_is_met (unavailable c' required alive) n c h = elim (Bool-cases (n == 0)) [
  | inr later ↦ absurd (ground arith)
  | inl first ↦ inr (pick_consistency_level alive c (rw first at h))
]

-- The write timeouts after which the data may be known to be persisted.
abbrev pub is_plain_write : Failure → Bool
is_plain_write (write_timeout c simple required received) = true
is_plain_write (write_timeout c batch required received) = true
is_plain_write (write_timeout c counter required received) = true
is_plain_write _ = false

-- The downgrading policy ignores a failure exactly if it is the first timeout of a SIMPLE, BATCH or
-- COUNTER write, and some replica has acknowledged the write: not for CAS, VIEW and CDC writes, and not for a write
-- to the batch log.
pub ignored_only_if_persisted :
    (f : Failure) (n : ℕ)
    → ((Downgrading.on_failure f n).0 ≡ ignore)
      ↔ ((n ≡ 0) × (is_plain_write f ≡ true) × (1 ≤ responded f))
unfolding Downgrading.on_failure
ignored_only_if_persisted (read_timeout c required received got) n =
    (λ e. absurd (ground arith), λ e. ground arith)
ignored_only_if_persisted (write_timeout c simple required received) n =
    (λ e. (ground arith, refl, ground arith), λ e. ground arith)
ignored_only_if_persisted (write_timeout c batch required received) n =
    (λ e. (ground arith, refl, ground arith), λ e. ground arith)
ignored_only_if_persisted (write_timeout c counter required received) n =
    (λ e. (ground arith, refl, ground arith), λ e. ground arith)
ignored_only_if_persisted _ n = (λ e. absurd (ground arith), λ e. ground arith)
