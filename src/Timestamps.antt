-- ===== src/Timestamps.antt =====
-- `MonotonicTimestampGenerator` of cassandra/timestamps.py. The lock makes a call atomic, so the
-- calls of all threads form one sequence; the clock's readings, in microseconds, are arguments.
pub mod Monotonic
pub mod Warnings
use python_driver.Prelude.{ℕ, ◌+◌, ◌*◌, Bool, true, false, ◌&&◌, List, [], ◌∷◌, ltb, if◌then◌else◌}
use python_driver.Prelude.Int.{ℤ, pos, sub_ℕ, leb_ℤ}

-- What `log.warn` is called with.
pub record Warning : Type 0 where
  pub now : ℕ
  pub diff : ℤ
  pub last : ℕ

-- The thresholds are whole seconds. `warnings` are the calls of `log.warn`, the latest first.
pub record Generator : Type 0 where
  pub last : ℕ
  pub last_warn : ℕ
  pub warn_on_drift : Bool
  pub warning_threshold : ℕ
  pub warning_interval : ℕ
  pub warnings : List Warning

unfoldable pub init : Bool → ℕ → ℕ → Generator
init warn_on_drift threshold interval = record {
  last = 0;
  last_warn = 0;
  warn_on_drift = warn_on_drift;
  warning_threshold = threshold;
  warning_interval = interval;
  warnings = [];
}

-- `_maybe_warn`
unfoldable pub maybe_warn : Generator → ℕ → Generator
maybe_warn g now =
    let diff = sub_ℕ g.last now in
    let since_last_warn = sub_ℕ now g.last_warn in
    if g.warn_on_drift
      && leb_ℤ (pos (g.warning_threshold * 1_000_000)) diff
      && leb_ℤ (pos (g.warning_interval * 1_000_000)) since_last_warn
    then record g {
      last_warn = now;
      warnings = record { now = now; diff = diff; last = g.last } ∷ g.warnings;
    }
    else g

-- `_next_timestamp`
unfoldable pub next_timestamp : Generator → ℕ → ℕ → ℕ × Generator
next_timestamp g now last =
    if ltb last now
    then (now, record g { last = now })
    else (last + 1, record (maybe_warn g now) { last = last + 1 })

-- `__call__`
unfoldable pub call : Generator → ℕ → ℕ × Generator
call g now = next_timestamp g now g.last

-- The timestamps of successive calls at the clock's readings, and the generator after them.
unfoldable pub call_all : Generator → List ℕ → List ℕ × Generator
call_all g [] = ([], g)
call_all g (now ∷ rest) =
    let (t, g') = call g now in let (ts, g'') = call_all g' rest in (t ∷ ts, g'')
