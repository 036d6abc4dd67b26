-- ===== src/Timestamps/Warnings.antt =====
-- The warnings of Timestamps.antt.
use python_driver.Prelude.{ℕ, ◌+◌, ◌*◌, ◌≤◌, ◌≡◌, ◌⊎◌, Bool, true, false, List, [], ◌∷◌, arith}
use python_driver.Timestamps.{Generator, Warning, init, maybe_warn, next_timestamp, call, call_all}

-- The clock's reading at the latest warning, 0 before the first.
abbrev pub last_warned : List Warning → ℕ
last_warned [] = 0
last_warned (w ∷ ws) = w.now

-- Latest first: each warning is of a drift of at least `threshold` seconds, and was logged at least
-- `interval` seconds by the clock after the one before it.
abbrev pub Spaced : ℕ → ℕ → List Warning → Type 0
Spaced threshold interval [] = Unit {0}
Spaced threshold interval (w ∷ ws) =
    (last_warned ws + interval * 1_000_000 ≤ w.now)
    × (threshold * 1_000_000 + w.now ≤ w.last)
    × Spaced threshold interval ws

record Inv (on : Bool) (threshold interval : ℕ) (g : Generator) : Type 0 where
  on_drift : g.warn_on_drift ≡ on
  thresholds : (g.warning_threshold ≡ threshold) × (g.warning_interval ≡ interval)
  latest : g.last_warn ≡ last_warned g.warnings
  spaced : Spaced threshold interval g.warnings
  silent : on ≡ false → g.warnings ≡ []

maybe_warn-Inv :
    (on : Bool) (threshold interval : ℕ) (g : Generator) (now : ℕ)
    → Inv on threshold interval g
    → Inv on threshold interval (maybe_warn g now)
unfolding maybe_warn
maybe_warn-Inv on threshold interval g now v = ground arith

call-Inv :
    (on : Bool) (threshold interval : ℕ) (g : Generator) (now : ℕ)
    → Inv on threshold interval g
    → Inv on threshold interval (call g now).1
unfolding call next_timestamp
call-Inv on threshold interval g now v =
    ground (arith, maybe_warn-Inv on threshold interval g now v)

call_all-Inv :
    (on : Bool) (threshold interval : ℕ) (readings : List ℕ) (g : Generator)
    → Inv on threshold interval g
    → Inv on threshold interval (call_all g readings).1
unfolding call_all
call_all-Inv on threshold interval [] g v = v
call_all-Inv on threshold interval (now ∷ rest) g v =
    call_all-Inv on threshold interval rest (call g now).1 (call-Inv on threshold interval g now v)

init-Inv :
    (on : Bool) (threshold interval : ℕ) → Inv on threshold interval (init on threshold interval)
unfolding init
init-Inv on threshold interval = ground arith

-- Whatever the clock reads, the warnings of a new generator's calls are each of a drift of at least
-- the threshold, and each at least the interval after the one before it by the clock, the first of
-- them after 0; a generator that does not warn on drift logs none.
pub warnings-Spaced :
    (on : Bool) (threshold interval : ℕ) (readings : List ℕ)
    → let g : Generator = (call_all (init on threshold interval) readings).1 in
      Spaced threshold interval g.warnings × ((on ≡ true) ⊎ (g.warnings ≡ []))
warnings-Spaced on threshold interval readings =
    let v = call_all-Inv on threshold interval readings _ (init-Inv on threshold interval) in
    (v.spaced, ground (arith, v.silent))
