-- ===== src/Cqlengine/SetUpdates.antt =====
-- SetUpdateClause of cassandra/cqlengine/statements.py, and what the server makes of its assignments. A set is
-- a list of which the members count.
pub mod Applied
use python_driver.Prelude.{
  ℕ, ◌+◌, Bool, true, false, not, ◌&&◌, ◌||◌, ◌==◌, Option, none, some, List, [], ◌∷◌, ◌++◌,
  if◌then◌else◌,
}
use python_driver.Cqlengine.{
  Operation, no_operation, append, prepend, add, remove, or_none, is_filled, entry, assigns,
  next_id,
}

unfoldable pub member : ℕ → List ℕ → Bool
member x [] = false
member x (y ∷ ys) = if y == x then true else member x ys

-- `xs - ys`
unfoldable pub minus : List ℕ → List ℕ → List ℕ
minus [] ys = []
minus (x ∷ xs) ys = let rest = minus xs ys in if member x ys then rest else x ∷ rest

unfoldable pub is_subset : List ℕ → List ℕ → Bool
is_subset [] ys = true
is_subset (x ∷ xs) ys = member x ys && is_subset xs ys

-- `xs == ys`
unfoldable pub set_eq : List ℕ → List ℕ → Bool
set_eq xs ys = is_subset xs ys && is_subset ys xs

-- The clause behind `_analyze`
pub record SetUpdate : Type 0 where
  pub assignments : Option (List ℕ)
  pub additions : Option (List ℕ)
  pub removals : Option (List ℕ)

unfoldable pub unchanged : SetUpdate
unchanged = record { assignments = none; additions = none; removals = none }

unfoldable pub is_previous : List ℕ → Option (List ℕ) → Bool
is_previous value none = false
is_previous value (some previous) = set_eq value previous

unfoldable pub analyze_value : List ℕ → Option (List ℕ) → SetUpdate
analyze_value value none = record unchanged { assignments = some value }
analyze_value value (some previous) = record unchanged {
  additions = or_none (minus value previous);
  removals = or_none (minus previous value);
}

unfoldable pub analyze_operation : Operation → List ℕ → Option (List ℕ) → SetUpdate
analyze_operation add value previous = record unchanged { additions = some value }
analyze_operation remove value previous = record unchanged { removals = some value }
analyze_operation op value previous = analyze_value value previous

-- `_analyze`
unfoldable pub analyze : Operation → Option (List ℕ) → Option (List ℕ) → SetUpdate
analyze op none previous = unchanged
analyze op (some value) previous =
    if is_previous value previous then unchanged else analyze_operation op value previous

unfoldable pub is_none : Option (List ℕ) → Bool
is_none none = true
is_none (some xs) = false

unfoldable pub get_context_size : SetUpdate → Option (List ℕ) → ℕ
get_context_size u previous =
    if is_none previous
      && (is_filled u.assignments == 0)
      && is_none u.additions
      && is_none u.removals
    then 1
    else is_filled u.assignments + is_filled u.additions + is_filled u.removals

-- The column is set to the empty set.
unfoldable pub is_emptied : SetUpdate → Option (List ℕ) → Bool
is_emptied u previous =
    is_none previous && is_none u.assignments && is_none u.additions && is_none u.removals

-- The values that `update_context` writes, from `context_id` on.
unfoldable pub update_context : SetUpdate → Option (List ℕ) → List (List ℕ)
update_context u previous =
    (if is_emptied u previous then [] ∷ [] else [])
    ++ entry u.assignments
    ++ entry u.additions
    ++ entry u.removals

-- "x" = %(i)s, "x" = "x" + %(i)s and "x" = "x" - %(i)s
pub data SetForm : Type 0 where
  set_is adds takes : SetForm

-- `__unicode__`
unfoldable pub unicode : SetUpdate → Option (List ℕ) → List (SetForm × ℕ)
unicode u previous =
    let i = next_id u.assignments 0 in
    let j = next_id u.additions i in
    (if is_emptied u previous then (set_is, 0) ∷ [] else [])
    ++ assigns set_is u.assignments 0
    ++ assigns adds u.additions i
    ++ assigns takes u.removals j

unfoldable pub or_empty : Option (List ℕ) → List ℕ
or_empty none = []
or_empty (some xs) = xs

-- What an assignment makes of the set that is stored.
unfoldable pub effect : SetForm → List ℕ → List ℕ → List ℕ
effect set_is v stored = v
effect adds v stored = stored ++ v
effect takes v stored = minus stored v
