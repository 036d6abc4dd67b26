-- ===== src/Tests/Schedules.antt =====
-- Tests of Policies/Reconnection and Policies/Retry, with whole seconds for delays.
use native.Mathlib.Nat.{pow-suc}
use python_driver.Prelude.{
  ℕ, zero, suc, ◌*◌, ◌^◌, ◌≤◌, ◌≡◌, refl, ◌⊎◌, ◌↔◌, inl, true, false, none, some, [], ◌∷◌, ltb,
  if◌then◌else◌, length, All, arith,
}
use python_driver.Prelude.Int.{pos}
use python_driver.Policies.Reconnection.{
  Numbers, ConstantPolicy, ExponentialPolicy, constant, exponential, new_constant_schedule,
  take_repeat, min_num, delay_at, start, next_delay, take_delays,
}
use python_driver.Policies.Reconnection.Schedules.{
  allowed, constant_allowed, AreOrdered, IsBetween, constant_attempts, exponential_delays,
}
use python_driver.Policies.Retry.{
  quorum, two, retry_next_host, rethrow, read_timeout, write_timeout, simple, retry, ignore,
}
use python_driver.Policies.Retry.Default
use python_driver.Policies.Retry.Downgrading
use python_driver.Policies.Retry.Bounds.{
  responded, requested, needed, IsRetried, IsMoved, retry_at_most_once, default_retries,
  downgraded_level_is_met, ignored_only_if_persisted,
}

-- Products overflow from 2 ** 1024 on.
abbrev seconds : Numbers
seconds = record {
  Num = ℕ;
  nought = 0;
  lt = ltb;
  scale = λ x i. if ltb i 1024 then some (x * 2 ^ i) else none;
}

one-le-pow : (i : ℕ) → 1 ≤ 2 ^ i
one-le-pow zero = omega arith
one-le-pow (suc i) = rw (pow-suc 2 i) (omega (arith, one-le-pow i))

le-mul-pow : (a i : ℕ) → a ≤ a * 2 ^ i
le-mul-pow a i = grind (arith, one-le-pow i)

doubling : (a b i : ℕ) → (if ltb i 1024 then some (a * 2 ^ i) else none) ≡ some b → ltb b a ≡ false
doubling a b i e = ground (arith, le-mul-pow a i)

seconds-AreOrdered : AreOrdered seconds
seconds-AreOrdered = record {
  irreflexive = λ a. ground arith;
  doubling_grows = λ a b i h e. doubling a b i e;
}

abbrev doubled : ExponentialPolicy seconds
doubled = record { base_delay = 2; max_delay = 10; max_attempts = some (pos 5) }

exponential_delays_example :
    (length (take_delays seconds 9 doubled (start seconds)) ≡ allowed 9 0 (some (pos 5)))
    × All (IsBetween seconds doubled) (take_delays seconds 9 doubled (start seconds))
unfolding exponential
exponential_delays_example =
    exponential_delays seconds seconds-AreOrdered 2 10 (some (pos 5)) doubled 9 refl

doubled_schedule : take_delays seconds 9 doubled (start seconds) ≡ 2 ∷ 4 ∷ 8 ∷ 10 ∷ 10 ∷ []
unfolding take_delays next_delay delay_at min_num
doubled_schedule = refl

abbrev no_attempts : ConstantPolicy seconds
no_attempts = record { delay = 3; max_attempts = some (pos 0) }

constant_attempts_example :
    length (take_repeat seconds 4 3 (new_constant_schedule seconds no_attempts))
    ≡ constant_allowed 4 (some (pos 0))
unfolding constant
constant_attempts_example = constant_attempts seconds 4 3 (some (pos 0)) no_attempts refl

retry_at_most_once_example : ◌≡◌ {A = ℕ} 0 0
unfolding Default.on_failure
retry_at_most_once_example = retry_at_most_once (read_timeout quorum 2 2 false) 0 (inl refl)

default_retries_example :
    (((Default.on_failure (read_timeout quorum 2 2 false) 0).0 ≡ retry)
      ↔ IsRetried (read_timeout quorum 2 2 false) 0)
    × (((Default.on_failure (read_timeout quorum 2 2 false) 0).0 ≡ retry_next_host)
        ↔ IsMoved (read_timeout quorum 2 2 false) 0)
    × ((Default.on_failure (read_timeout quorum 2 2 false) 0 ≡ (retry, some quorum))
        ⊎ (Default.on_failure (read_timeout quorum 2 2 false) 0 ≡ (retry_next_host, some quorum))
        ⊎ (Default.on_failure (read_timeout quorum 2 2 false) 0 ≡ (rethrow, none)))
default_retries_example = default_retries (read_timeout quorum 2 2 false) 0

downgraded_level_is_met_example :
    (two ≡ requested (read_timeout quorum 3 2 true))
    ⊎ ((k : ℕ) × (needed two ≡ some k) × (1 ≤ k) × (k ≤ responded (read_timeout quorum 3 2 true)))
unfolding Downgrading.on_failure
downgraded_level_is_met_example = downgraded_level_is_met (read_timeout quorum 3 2 true) 0 two refl

ignored_only_if_persisted_example :
    ((Downgrading.on_failure (write_timeout quorum simple 2 1) 0).0 ≡ ignore)
    ↔ ((◌≡◌ {A = ℕ} 0 0) × (true ≡ true) × (1 ≤ 1))
ignored_only_if_persisted_example = ignored_only_if_persisted (write_timeout quorum simple 2 1) 0
