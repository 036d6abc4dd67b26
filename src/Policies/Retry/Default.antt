-- ===== src/Policies/Retry/Default.antt =====
-- `RetryPolicy` and `FallthroughRetryPolicy` of cassandra/policies.py
use python_driver.Prelude.{ℕ, Bool, true, false, not, none, some, leb, ◌==◌, ◌&&◌, if◌then◌else◌}
use python_driver.Policies.Retry.{
  ConsistencyLevel, WriteType, batch_log, retry, rethrow, retry_next_host, Verdict, Failure,
  read_timeout, write_timeout, unavailable,
}

unfoldable pub on_read_timeout : ConsistencyLevel → ℕ → ℕ → Bool → ℕ → Verdict
on_read_timeout consistency required received data_retrieved retry_num =
    if not (retry_num == 0)
    then (rethrow, none)
    else if leb required received && not data_retrieved
    then (retry, some consistency)
    else (rethrow, none)

is_batch_log : WriteType → Bool
is_batch_log batch_log = true
is_batch_log _ = false

unfoldable pub on_write_timeout : ConsistencyLevel → WriteType → ℕ → ℕ → ℕ → Verdict
unfolding is_batch_log
on_write_timeout consistency write_type required received retry_num =
    if not (retry_num == 0)
    then (rethrow, none)
    else if is_batch_log write_type
    then (retry, some consistency)
    else (rethrow, none)

unfoldable pub on_unavailable : ConsistencyLevel → ℕ → ℕ → ℕ → Verdict
on_unavailable consistency required alive retry_num =
    if retry_num == 0 then (retry_next_host, some consistency) else (rethrow, none)

-- The method that the driver calls for the failure.
unfoldable pub on_failure : Failure → ℕ → Verdict
unfolding on_read_timeout on_write_timeout on_unavailable
on_failure (read_timeout c required received got) n = on_read_timeout c required received got n
on_failure (write_timeout c w required received) n = on_write_timeout c w required received n
on_failure (unavailable c required alive) n = on_unavailable c required alive n

-- `FallthroughRetryPolicy`: the three methods are one.
unfoldable pub fallthrough : Failure → ℕ → Verdict
fallthrough failure retry_num = (rethrow, none)
