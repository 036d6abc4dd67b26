-- ===== src/Policies/Retry/Downgrading.antt =====
-- `DowngradingConsistencyRetryPolicy` of cassandra/policies.py
use python_driver.Prelude.{ℕ, Bool, not, none, some, leb, ltb, ◌==◌, if◌then◌else◌}
use python_driver.Policies.Retry.{
  ConsistencyLevel, one, two, three, WriteType, simple, batch, unlogged_batch, counter, batch_log,
  retry, rethrow, ignore, Verdict, Failure, read_timeout, write_timeout, unavailable,
}

unfoldable pub pick_consistency : ℕ → Verdict
pick_consistency num_responses =
    if leb 3 num_responses
    then (retry, some three)
    else if leb 2 num_responses
    then (retry, some two)
    else if leb 1 num_responses
    then (retry, some one)
    else (rethrow, none)

unfoldable pub on_read_timeout : ConsistencyLevel → ℕ → ℕ → Bool → ℕ → Verdict
unfolding pick_consistency
on_read_timeout consistency required received data_retrieved retry_num =
    if not (retry_num == 0)
    then (rethrow, none)
    else if ltb received required
    then pick_consistency received
    else if not data_retrieved
    then (retry, some consistency)
    else (rethrow, none)

write_verdict : ConsistencyLevel → WriteType → ℕ → Verdict
write_verdict consistency simple received =
    if ltb 0 received then (ignore, none) else (rethrow, none)
write_verdict consistency batch received =
    if ltb 0 received then (ignore, none) else (rethrow, none)
write_verdict consistency counter received =
    if ltb 0 received then (ignore, none) else (rethrow, none)
write_verdict consistency unlogged_batch received = pick_consistency received
write_verdict consistency batch_log received = (retry, some consistency)
write_verdict consistency _ received = (rethrow, none)

unfoldable pub on_write_timeout : ConsistencyLevel → WriteType → ℕ → ℕ → ℕ → Verdict
unfolding write_verdict pick_consistency
on_write_timeout consistency write_type required received retry_num =
    if not (retry_num == 0) then (rethrow, none) else write_verdict consistency write_type received

unfoldable pub on_unavailable : ConsistencyLevel → ℕ → ℕ → ℕ → Verdict
unfolding pick_consistency
on_unavailable consistency required alive retry_num =
    if not (retry_num == 0) then (rethrow, none) else pick_consistency alive

-- The method that the driver calls for the failure.
unfoldable pub on_failure : Failure → ℕ → Verdict
unfolding on_read_timeout on_write_timeout on_unavailable
on_failure (read_timeout c required received got) n = on_read_timeout c required received got n
on_failure (write_timeout c w required received) n = on_write_timeout c w required received n
on_failure (unavailable c required alive) n = on_unavailable c required alive n
