-- ===== src/Policies/Reconnection.antt =====
-- `ConstantReconnectionPolicy`, `ExponentialReconnectionPolicy`, `SimpleConvictionPolicy` and
-- `ConstantSpeculativeExecutionPolicy` of cassandra/policies.py. Delays are Python numbers, mostly
-- floats: their type, order and scaling are a parameter.
pub mod Schedules
use python_driver.Prelude.{
  ℕ, zero, suc, ◌+◌, ◌-◌, ◌==◌, Bool, true, false, not, ◌||◌, ◌&&◌, Option, none, some, List, [],
  ◌∷◌, ltb, if◌then◌else◌,
}
use python_driver.Prelude.Int.{ℤ, pos, negsuc, ltb_ℤ}

-- `scale x i` is `x * (2 ** i)`, none where Python raises OverflowError.
pub record Numbers : Type 1 where
  pub Num : Type 0
  pub nought : Num
  pub lt : Num → Num → Bool
  pub scale : Num → ℕ → Option Num

-- `max_attempts is not None and max_attempts < 0`
abbrev pub is_negative : Option ℤ → Bool
is_negative none = false
is_negative (some n) = ltb_ℤ n (pos 0)

module _ (numbers : Numbers) where
  open numbers use {Num, nought, lt, scale}

  pub record ConstantPolicy : Type 0 where
    pub delay : Num
    pub max_attempts : Option ℤ

  pub record ExponentialPolicy : Type 0 where
    pub base_delay : Num
    pub max_delay : Num
    pub max_attempts : Option ℤ

module _ (numbers : Numbers) where
  open numbers use {Num, nought, lt, scale}

  -- The constructors; none is a ValueError.
  unfoldable pub constant : Num → Option ℤ → Option (ConstantPolicy numbers)
  constant delay max_attempts =
      if lt delay nought
      then none
      else if is_negative max_attempts
      then none
      else some (record { delay = delay; max_attempts = max_attempts })

  unfoldable pub exponential : Num → Num → Option ℤ → Option (ExponentialPolicy numbers)
  exponential base_delay max_delay max_attempts =
      if lt base_delay nought || lt max_delay nought
      then none
      else if lt max_delay base_delay
      then none
      else if is_negative max_attempts
      then none
      else some
          (record { base_delay = base_delay; max_delay = max_delay; max_attempts = max_attempts })

  -- What the iterator `repeat(delay, times)` or `repeat(delay)` still yields: none is without end.
  unfoldable pub new_constant_schedule : ConstantPolicy numbers → Option ℤ
  new_constant_schedule p = elim p.max_attempts [
    | none ↦ none
    | some n ↦ elim n [ pos m ↦ if m == 0 then none else some (pos m) | negsuc m ↦ some (negsuc m) ]
  ]

  -- The first `count` delays, or all if there are fewer.
  unfoldable pub take_repeat : ℕ → Num → Option ℤ → List Num
  take_repeat zero delay left = []
  take_repeat (suc count) delay none = delay ∷ take_repeat count delay none
  take_repeat (suc count) delay (some (pos zero)) = []
  take_repeat (suc count) delay (some (pos (suc m))) =
      delay ∷ take_repeat count delay (some (pos m))
  take_repeat (suc count) delay (some (negsuc m)) = []

  -- `min(a, b)`
  unfoldable pub min_num : Num → Num → Num
  min_num a b = if lt b a then b else a

  -- The generator's variables `i` and `overflowed`.
  pub record Progress : Type 0 where
    pub i : ℕ
    pub overflowed : Bool

  -- `i, overflowed = 0, False`
  abbrev pub start : Progress
  start = record { i = 0; overflowed = false }

  abbrev pub attempts_left : ℕ → Option ℤ → Bool
  attempts_left i none = true
  attempts_left i (some n) = ltb_ℤ (pos i) n

  -- The `try` block: the delay, and whether the product overflowed.
  unfoldable pub delay_at : ExponentialPolicy numbers → ℕ → Bool → Num × Bool
  delay_at p i true = (p.max_delay, true)
  delay_at p i false = elim (scale p.base_delay i) [
    | none ↦ (p.max_delay, true)
    | some d ↦ (min_num d p.max_delay, false)
  ]

module _ (numbers : Numbers) where
  open numbers use {Num}

  -- One round of the loop of `new_schedule`; none ends the generator.
  unfoldable pub next_delay :
      ExponentialPolicy numbers → Progress numbers → Option (Num × Progress numbers)
  next_delay p g =
      if attempts_left numbers g.i p.max_attempts
      then (let (delay, overflowed) = delay_at numbers p g.i g.overflowed in
          some (delay, record { i = g.i + 1; overflowed = overflowed }))
      else none

  unfoldable pub take_delays : ℕ → ExponentialPolicy numbers → Progress numbers → List Num
  take_delays zero p g = []
  take_delays (suc count) p g = elim (next_delay p g) [
    | none ↦ []
    | some (delay, g') ↦ delay ∷ take_delays count p g'
  ]
