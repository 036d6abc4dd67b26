-- ===== src/Timestamps/Monotonic.antt =====
-- The timestamps of Timestamps.antt increase.
use python_driver.Prelude.{ℕ, ◌+◌, ◌<◌, ◌≡◌, refl, ap, ◌∙◌, List, [], ◌∷◌, arith}
use Prim.Native.Nat.{max}
use python_driver.Timestamps.{Generator, next_timestamp, call, call_all}

-- Each number is above the one before it, and the first above `n`.
abbrev pub IncreasingFrom : ℕ → List ℕ → Type 0
IncreasingFrom n [] = Unit {0}
IncreasingFrom n (t ∷ ts) = (n < t) × IncreasingFrom t ts

-- The timestamps that the specification gives: the clock's reading if it is later than the last
-- timestamp, and one microsecond after that otherwise.
abbrev pub drift : ℕ → List ℕ → List ℕ
drift last [] = []
drift last (now ∷ rest) = max now (last + 1) ∷ drift (max now (last + 1)) rest

call_lem :
    (g : Generator) (now : ℕ)
    → ((call g now).0 ≡ max now (g.last + 1)) × ((call g now).1.last ≡ (call g now).0)
unfolding call next_timestamp
call_lem g now = ground arith

call_all-eq-drift :
    (g : Generator) (readings : List ℕ) → (call_all g readings).0 ≡ drift g.last readings
unfolding call_all
call_all-eq-drift g [] = refl
call_all-eq-drift g (now ∷ rest) =
    let (value, kept) = call_lem g now in
    ap (◌∷◌ (call g now).0) (call_all-eq-drift (call g now).1 rest) ∙ (rw (kept, value))

drift-IncreasingFrom : (n : ℕ) (readings : List ℕ) → IncreasingFrom n (drift n readings)
drift-IncreasingFrom n [] = tt
drift-IncreasingFrom n (now ∷ rest) = (omega arith, drift-IncreasingFrom (max now (n + 1)) rest)

-- Whatever the clock reads, also when it stands still or goes back, the timestamps of successive
-- calls increase strictly from the last one on, and each is the clock's reading if that is later
-- than the timestamp before it, or one more than that timestamp.
pub timestamps_increase :
    (g : Generator) (readings : List ℕ)
    → IncreasingFrom g.last (call_all g readings).0
      × ((call_all g readings).0 ≡ drift g.last readings)
timestamps_increase g readings =
    let e = call_all-eq-drift g readings in (rw e (drift-IncreasingFrom g.last readings), e)
