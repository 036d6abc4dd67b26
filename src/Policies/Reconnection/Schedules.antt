-- ===== src/Policies/Reconnection/Schedules.antt =====
-- How many delays the schedules of Policies/Reconnection.antt yield, and between which bounds.
use Prim.Native.Nat.{min}
use python_driver.Prelude.{
  ℕ, zero, suc, ◌+◌, ◌-◌, ◌≡◌, refl, ap, ◌∙◌, Bool, true, false, Option, none, some, if◌then◌else◌,
  arith, length, All, Bool-cases, inl, inr, Option-cases,
}
use python_driver.Prelude.Int.{ℤ, pos, negsuc}
use python_driver.Policies.Reconnection.{
  Numbers, ConstantPolicy, ExponentialPolicy, Progress, constant, exponential,
  new_constant_schedule, take_repeat, min_num, attempts_left, delay_at, start, next_delay,
  take_delays,
}

-- How many of `count` attempts a limit leaves after `i` of them.
abbrev pub allowed : ℕ → ℕ → Option ℤ → ℕ
allowed count i none = count
allowed count i (some (pos n)) = min count (n - i)
allowed count i (some (negsuc n)) = 0

-- How many of `count` delays a constant schedule yields: no limit and the limit 0 are the same.
abbrev pub constant_allowed : ℕ → Option ℤ → ℕ
constant_allowed count none = count
constant_allowed count (some (pos zero)) = count
constant_allowed count (some (pos (suc n))) = min count (suc n)
constant_allowed count (some (negsuc n)) = 0

module _ (numbers : Numbers) where
  open numbers use {Num, nought, lt, scale}

  length-take_repeat :
      (count : ℕ) (delay : Num) (left : Option ℤ)
      → length (take_repeat numbers count delay left) ≡ allowed count 0 left
  unfolding take_repeat
  length-take_repeat zero delay none = refl
  length-take_repeat zero delay (some (pos m)) = omega arith
  length-take_repeat zero delay (some (negsuc m)) = refl
  length-take_repeat (suc count) delay none = ap suc (length-take_repeat count delay none)
  length-take_repeat (suc count) delay (some (pos zero)) = omega arith
  length-take_repeat (suc count) delay (some (pos (suc m))) =
      omega (arith, length-take_repeat count delay (some (pos m)))
  length-take_repeat (suc count) delay (some (negsuc m)) = refl

  constant-limit :
      (delay : Num) (m : Option ℤ) (p : ConstantPolicy numbers)
      → constant numbers delay m ≡ some p
      → p.max_attempts ≡ m
  unfolding constant
  constant-limit delay m p e = ground arith

  schedule_of :
      (count : ℕ) (p : ConstantPolicy numbers) (m : Option ℤ)
      → p.max_attempts ≡ m
      → allowed count 0 (new_constant_schedule numbers p) ≡ constant_allowed count m
  unfolding new_constant_schedule
  schedule_of count p none e = rw (e, new_constant_schedule) refl
  schedule_of count p (some (pos zero)) e = rw (e, new_constant_schedule) refl
  schedule_of count p (some (pos (suc n))) e = rw (e, new_constant_schedule) (ground arith)
  schedule_of count p (some (negsuc n)) e = rw (e, new_constant_schedule) refl

  -- A constant policy with a positive limit yields so many delays and then stops; without a limit,
  -- and also with a limit of 0, it yields delays without end: as many as are asked for.
  pub constant_attempts :
      (count : ℕ) (delay : Num) (m : Option ℤ) (p : ConstantPolicy numbers)
      → constant numbers delay m ≡ some p
      → length (take_repeat numbers count p.delay (new_constant_schedule numbers p))
        ≡ constant_allowed count m
  constant_attempts count delay m p e =
      length-take_repeat count p.delay (new_constant_schedule numbers p)
      ∙ schedule_of count p m (constant-limit delay m p e)

  allowed_none : (i : ℕ) (m : Option ℤ) → 0 ≡ allowed 0 i m
  allowed_none i none = refl
  allowed_none i (some (pos n)) = omega arith
  allowed_none i (some (negsuc n)) = refl

  pub next_delay_stops :
      (p : ExponentialPolicy numbers) (g : Progress numbers)
      → attempts_left numbers g.i p.max_attempts ≡ false
      → next_delay numbers p g ≡ none
  unfolding next_delay
  next_delay_stops p g e = rw e

  pub next_delay_goes_on :
      (p : ExponentialPolicy numbers) (g : Progress numbers)
      → attempts_left numbers g.i p.max_attempts ≡ true
      → next_delay numbers p g
        ≡ some (
          (delay_at numbers p g.i g.overflowed).0,
          record { i = g.i + 1; overflowed = (delay_at numbers p g.i g.overflowed).1 },
        )
  unfolding next_delay
  next_delay_goes_on p g e = rw e

  allowed_next :
      (count i : ℕ) (m : Option ℤ)
      → allowed (suc count) i m
        ≡ (if attempts_left numbers i m then suc (allowed count (i + 1) m) else 0)
  allowed_next count i none = refl
  allowed_next count i (some (pos n)) = ground arith
  allowed_next count i (some (negsuc n)) = ground arith

  length-take_delays :
      (count : ℕ) (p : ExponentialPolicy numbers) (g : Progress numbers)
      → length (take_delays numbers count p g) ≡ allowed count g.i p.max_attempts
  unfolding take_delays
  length-take_delays zero p g = allowed_none g.i p.max_attempts
  length-take_delays (suc count) p g =
      elim (Bool-cases (attempts_left numbers g.i p.max_attempts)) [
        | inl more ↦
            rw (allowed_next, more, next_delay_goes_on p g more, take_delays)
              (ap suc (length-take_delays count p _))
        | inr done ↦ rw (allowed_next, done, next_delay_stops p g done, take_delays)
      ]

  -- The facts about Python's numbers that the bounds rest on.
  pub record AreOrdered : Type 0 where
    pub irreflexive : (a : Num) → lt a a ≡ false
    pub doubling_grows :
        (a b : Num) (i : ℕ) → lt a nought ≡ false → scale a i ≡ some b → lt b a ≡ false

  -- The delay is neither above the maximum nor below the base.
  abbrev pub IsBetween : ExponentialPolicy numbers → Num → Type 0
  IsBetween p d = (lt p.max_delay d ≡ false) × (lt d p.base_delay ≡ false)

module _ (numbers : Numbers) (ordered : AreOrdered numbers) where
  open numbers use {Num, nought, lt, scale}

  module _ (p : ExponentialPolicy numbers) (positive : lt p.base_delay nought ≡ false)
      (apart : lt p.max_delay p.base_delay ≡ false) where
    min_num-IsBetween :
        (d : Num) → lt d p.base_delay ≡ false → IsBetween numbers p (min_num numbers d p.max_delay)
    unfolding min_num
    min_num-IsBetween d h = elim (Bool-cases (lt p.max_delay d)) [
      | inl above ↦ rw above (ordered.irreflexive p.max_delay, apart)
      | inr below ↦ rw below (below, h)
    ]

    delay_at-IsBetween :
        (i : ℕ) (overflowed : Bool) → IsBetween numbers p (delay_at numbers p i overflowed).0
    unfolding delay_at
    delay_at-IsBetween i true = (ordered.irreflexive p.max_delay, apart)
    delay_at-IsBetween i false = elim (Option-cases (scale p.base_delay i)) [
      | inl over ↦ rw (over, delay_at) (ordered.irreflexive p.max_delay, apart)
      | inr (d, e) ↦
          rw (e, delay_at)
            (min_num-IsBetween d (ordered.doubling_grows p.base_delay d i positive e))
    ]

    take_delays-IsBetween :
        (count : ℕ) (g : Progress numbers)
        → All (IsBetween numbers p) (take_delays numbers count p g)
    unfolding take_delays
    take_delays-IsBetween zero g = tt
    take_delays-IsBetween (suc count) g =
        elim (Bool-cases (attempts_left numbers g.i p.max_attempts)) [
          | inl more ↦
              rw (next_delay_goes_on numbers p g more, take_delays)
                (delay_at-IsBetween g.i g.overflowed, take_delays-IsBetween count _)
          | inr done ↦ rw (next_delay_stops numbers p g done, take_delays) tt
        ]

  exponential-fields :
      (base maximum : Num) (m : Option ℤ) (p : ExponentialPolicy numbers)
      → exponential numbers base maximum m ≡ some p
      → (p.max_attempts ≡ m)
        × (lt p.base_delay nought ≡ false)
        × (lt p.max_delay p.base_delay ≡ false)
  unfolding exponential
  exponential-fields base maximum m p e = ground arith

  -- The schedule of an exponential policy that the constructor accepts yields as many delays as
  -- `max_attempts`, without end if that is None, and each of them is at least the base delay and at
  -- most the maximum, also when the product overflows.
  pub exponential_delays :
      (base maximum : Num) (m : Option ℤ) (p : ExponentialPolicy numbers) (count : ℕ)
      → exponential numbers base maximum m ≡ some p
      → (length (take_delays numbers count p (start numbers)) ≡ allowed count 0 m)
        × All (IsBetween numbers p) (take_delays numbers count p (start numbers))
  exponential_delays base maximum m p count e =
      let (limit, positive, apart) = exponential-fields base maximum m p e in
      (
        length-take_delays numbers count p (start numbers) ∙ ap (allowed count 0) limit,
        take_delays-IsBetween p positive apart count (start numbers),
      )
