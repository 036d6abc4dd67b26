-- ===== src/Policies/Retry.antt =====
-- `RetryPolicy` and its subclasses of cassandra/policies.py, with `WriteType`, and
-- `ConsistencyLevel` of cassandra/__init__.py
pub mod Default
pub mod Downgrading
pub mod Bounds
use python_driver.Prelude.{ℕ, Bool, Option}

pub data ConsistencyLevel : Type 0 where
  any one two three quorum all local_quorum each_quorum : ConsistencyLevel
  serial local_serial local_one : ConsistencyLevel

pub data WriteType : Type 0 where
  simple batch unlogged_batch counter batch_log cas view cdc : WriteType

pub data Decision : Type 0 where
  retry rethrow ignore retry_next_host : Decision

-- A decision and the level to retry at; None keeps the level.
abbrev pub Verdict : Type 0
Verdict = Decision × Option ConsistencyLevel

-- The methods' arguments that a policy reads; `query` is not read.
pub data Failure : Type 0 where
  read_timeout : ConsistencyLevel → ℕ → ℕ → Bool → Failure
  write_timeout : ConsistencyLevel → WriteType → ℕ → ℕ → Failure
  unavailable : ConsistencyLevel → ℕ → ℕ → Failure
