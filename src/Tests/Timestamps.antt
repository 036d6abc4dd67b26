-- ===== src/Tests/Timestamps.antt =====
-- Tests of Timestamps: a clock that goes back.
use python_driver.Prelude.{ℕ, ◌≡◌, refl, ◌⊎◌, true, List, [], ◌∷◌}
use python_driver.Timestamps.{init, call, call_all, next_timestamp, maybe_warn}
use python_driver.Timestamps.Monotonic.{IncreasingFrom, drift, timestamps_increase}
use python_driver.Timestamps.Warnings.{Spaced, warnings-Spaced}

abbrev readings : List ℕ
readings = 5_000_000 ∷ 3_000_000 ∷ 6_000_000 ∷ []

backwards : (call_all (init true 1 1) readings).0 ≡ 5_000_000 ∷ 5_000_001 ∷ 6_000_000 ∷ []
unfolding init call_all call next_timestamp maybe_warn
backwards = refl

timestamps_increase_example :
    IncreasingFrom 0 (call_all (init true 1 1) readings).0
    × ((call_all (init true 1 1) readings).0 ≡ drift 0 readings)
unfolding init
timestamps_increase_example = timestamps_increase (init true 1 1) readings

warnings-Spaced_example :
    Spaced 1 1 (call_all (init true 1 1) readings).1.warnings
    × ((true ≡ true) ⊎ ((call_all (init true 1 1) readings).1.warnings ≡ []))
warnings-Spaced_example = warnings-Spaced true 1 1 readings
