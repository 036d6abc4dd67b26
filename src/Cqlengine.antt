-- ===== src/Cqlengine.antt =====
-- The clauses that update a collection column, in cassandra/cqlengine/statements.py. The elements are numbers.
pub mod ListUpdates
pub mod SetUpdates
pub mod MapUpdates
use python_driver.Prelude.{
  ℕ, zero, suc, ◌+◌, ◌-◌, Bool, true, false, not, ◌&&◌, leb, ltb, ◌==◌, Option, none, some, List,
  [], ◌∷◌, ◌++◌, if◌then◌else◌, length, take, drop, get_or,
}

pub data Operation : Type 0 where
  no_operation : Operation
  append : Operation
  prepend : Operation
  add : Operation
  remove : Operation

unfoldable pub list_eq : List ℕ → List ℕ → Bool
list_eq [] [] = true
list_eq [] (y ∷ ys) = false
list_eq (x ∷ xs) [] = false
list_eq (x ∷ xs) (y ∷ ys) = (x == y) && list_eq xs ys

-- `x or None`
unfoldable pub or_none : List ℕ → Option (List ℕ)
or_none [] = none
or_none (x ∷ xs) = some (x ∷ xs)

-- `int(x is not None)` and `int(bool(x))`
unfoldable pub is_there : Option (List ℕ) → ℕ
is_there none = 0
is_there (some xs) = 1

unfoldable pub is_filled : Option (List ℕ) → ℕ
is_filled none = 0
is_filled (some []) = 0
is_filled (some (x ∷ xs)) = 1

-- One entry of the context, if there is a value.
unfoldable pub entry : Option (List ℕ) → List (List ℕ)
entry none = []
entry (some xs) = xs ∷ []

-- `__unicode__` writes an assignment for a value that is there, with an id of the context, and then counts the id up.
-- Ids are counted from `context_id` on.
unfoldable pub assigns {ℓ} : {F : Type ℓ} → F → Option (List ℕ) → ℕ → List (F × ℕ)
assigns form none ctx_id = []
assigns form (some xs) ctx_id = (form, ctx_id) ∷ []

unfoldable pub next_id : Option (List ℕ) → ℕ → ℕ
next_id none ctx_id = ctx_id
next_id (some xs) ctx_id = ctx_id + 1

-- The value of the context at an id.
unfoldable pub value_at : List (List ℕ) → ℕ → Option (List ℕ)
value_at [] i = none
value_at (v ∷ vs) zero = some v
value_at (v ∷ vs) (suc i) = value_at vs i

-- What the server makes of a collection: it carries out the assignments in their order, each with the value of
-- its id; there is no result if an id has no value.
unfoldable pub execute {ℓ} :
    {F : Type ℓ}
    → (F → List ℕ → List ℕ → List ℕ)
    → List (F × ℕ)
    → List (List ℕ)
    → List ℕ
    → Option (List ℕ)
execute effect [] ctx stored = some stored
execute effect ((form, i) ∷ rest) ctx stored = elim (value_at ctx i) [
  | none ↦ none
  | some v ↦ execute effect rest ctx (effect form v stored)
]

-- ListUpdateClause behind `_analyze`
pub record ListUpdate : Type 0 where
  pub assignments : Option (List ℕ)
  pub prepended : Option (List ℕ)
  pub appended : Option (List ℕ)

unfoldable pub unchanged : ListUpdate
unchanged = record { assignments = none; prepended = none; appended = none }

unfoldable pub rewritten : List ℕ → ListUpdate
rewritten value = record { assignments = some value; prepended = none; appended = none }

-- `self.previous == sub`, behind the comparisons of the first and the last elements
unfoldable pub matches : List ℕ → List ℕ → Bool
matches previous sub =
    (get_or previous 0 0 == get_or sub 0 0)
    && (get_or previous (length previous - 1) 0 == get_or sub (length sub - 1) 0)
    && list_eq previous sub

-- The loop over `range(search_space)`, from `i` with `n` rounds left: where `previous` stands in `value`.
unfoldable pub search : List ℕ → List ℕ → ℕ → ℕ → Option ℕ
search value previous zero i = none
search value previous (suc n) i =
    let rest = search value previous n (i + 1) in
    if matches previous (take (length previous) (drop i value)) then some i else rest

unfoldable pub around : List ℕ → ℕ → ℕ → ListUpdate
around value i j = record {
  assignments = none;
  prepended = or_none (take i value);
  appended = or_none (drop j value);
}

-- The last test of `_analyze`
unfoldable pub or_rewritten : List ℕ → ListUpdate → ListUpdate
or_rewritten value u = elim u.prepended [
  | some p ↦ u
  | none ↦ elim u.appended [ some a ↦ u | none ↦ rewritten value ]
]

unfoldable pub found_at : List ℕ → List ℕ → Option ℕ → ListUpdate
found_at value previous none = rewritten value
found_at value previous (some i) = or_rewritten value (around value i (i + length previous))

unfoldable pub compare_lists : List ℕ → List ℕ → ListUpdate
compare_lists value previous =
    if ltb (length value) (length previous)
    then rewritten value
    else (if length previous == 0
        then rewritten value
        else found_at value previous
            (search value previous (length value - (length previous - 1)) 0))

unfoldable pub analyze_value : List ℕ → Option (List ℕ) → ListUpdate
analyze_value value none = rewritten value
analyze_value value (some previous) = compare_lists value previous

unfoldable pub is_previous : List ℕ → Option (List ℕ) → Bool
is_previous value none = false
is_previous value (some previous) = list_eq value previous

unfoldable pub analyze_operation : Operation → List ℕ → Option (List ℕ) → ListUpdate
analyze_operation append value previous = record unchanged { appended = some value }
analyze_operation prepend value previous = record unchanged { prepended = some value }
analyze_operation op value previous = analyze_value value previous

-- `_analyze`
unfoldable pub analyze : Operation → Option (List ℕ) → Option (List ℕ) → ListUpdate
analyze op none previous = unchanged
analyze op (some value) previous =
    if is_previous value previous then unchanged else analyze_operation op value previous

unfoldable pub get_context_size : ListUpdate → ℕ
get_context_size u = is_there u.assignments + is_filled u.appended + is_filled u.prepended

-- The values that `update_context` writes, from `context_id` on.
unfoldable pub update_context : ListUpdate → List (List ℕ)
update_context u = entry u.assignments ++ entry u.prepended ++ entry u.appended

-- "x" = %(i)s, "x" = %(i)s + "x" and "x" = "x" + %(i)s
pub data ListForm : Type 0 where
  list_is put_before put_behind : ListForm

-- `__unicode__`
unfoldable pub unicode : ListUpdate → List (ListForm × ℕ)
unicode u =
    let i = next_id u.assignments 0 in
    let j = next_id u.prepended i in
    assigns list_is u.assignments 0
    ++ assigns put_before u.prepended i
    ++ assigns put_behind u.appended j
