-- ===== src/Cqlengine/MapUpdates.antt =====
-- MapUpdateClause and MapDeleteClause of cassandra/cqlengine/statements.py, and what the server makes of what they
-- write. A dict is a list of its items; keys and values are numbers.
pub mod Applied
use python_driver.Prelude.{
  ℕ, ◌+◌, ◌*◌, Bool, true, false, not, ◌&&◌, leb, ◌==◌, Option, none, some, List, [], ◌∷◌, ◌++◌,
  if◌then◌else◌, length,
}

-- `d.get(k)`
unfoldable pub get : List (ℕ × ℕ) → ℕ → Option ℕ
get [] x = none
get ((k, v) ∷ d) x = if k == x then some v else get d x

unfoldable pub option_eq : Option ℕ → Option ℕ → Bool
option_eq none none = true
option_eq none (some w) = false
option_eq (some v) none = false
option_eq (some v) (some w) = v == w

unfoldable pub insert : ℕ → List ℕ → List ℕ
insert k [] = k ∷ []
insert k (j ∷ js) = if leb k j then k ∷ j ∷ js else j ∷ insert k js

unfoldable pub sorted : List ℕ → List ℕ
sorted [] = []
sorted (k ∷ ks) = insert k (sorted ks)

-- `[k for k, v in self.value.items() if v != self.previous.get(k)]`
unfoldable pub changed : List (ℕ × ℕ) → List (ℕ × ℕ) → List ℕ
changed [] previous = []
changed ((k, v) ∷ d) previous =
    let rest = changed d previous in if option_eq (some v) (get previous k) then rest else k ∷ rest

unfoldable pub keys : List (ℕ × ℕ) → List ℕ
keys [] = []
keys ((k, v) ∷ d) = k ∷ keys d

-- `_analyze` of an update without an operation: `_updates`, in which an empty list is as good as None.
unfoldable pub updates : List (ℕ × ℕ) → Option (List (ℕ × ℕ)) → List ℕ
updates value none = sorted (keys value)
updates value (some previous) = sorted (changed value previous)

unfoldable pub is_assignment : List (ℕ × ℕ) → Option (List (ℕ × ℕ)) → Bool
is_assignment value none = length (updates value none) == 0
is_assignment value (some previous) = false

unfoldable pub get_context_size : List (ℕ × ℕ) → Option (List (ℕ × ℕ)) → ℕ
get_context_size value previous =
    if is_assignment value previous then 1 else length (updates value previous) * 2

-- An entry of the context: `{}`, a key, or a value that may be None.
pub data Entry : Type 0 where
  empty_map : Entry
  map_key : ℕ → Entry
  map_value : Option ℕ → Entry

unfoldable pub key_entries : List (ℕ × ℕ) → List ℕ → List Entry
key_entries value [] = []
key_entries value (k ∷ ks) = map_key k ∷ map_value (get value k) ∷ key_entries value ks

-- `update_context`
unfoldable pub update_context : List (ℕ × ℕ) → Option (List (ℕ × ℕ)) → List Entry
update_context value previous =
    if is_assignment value previous
    then empty_map ∷ []
    else key_entries value (updates value previous)

-- `_analyze` of MapDeleteClause
unfoldable pub missing : List (ℕ × ℕ) → List (ℕ × ℕ) → List ℕ
missing [] value = []
missing ((k, v) ∷ d) value =
    let rest = missing d value in if option_eq (get value k) none then k ∷ rest else rest

unfoldable pub or_empty : Option (List (ℕ × ℕ)) → List (ℕ × ℕ)
or_empty none = []
or_empty (some d) = d

unfoldable pub removals : List (ℕ × ℕ) → Option (List (ℕ × ℕ)) → List ℕ
removals value previous = sorted (missing (or_empty previous) value)

-- The map that is stored, and what "x" = {}, "x"[k] = v (a null removes the key) and DELETE "x"[k] make of it.
unfoldable pub put : ℕ → Option ℕ → (ℕ → Option ℕ) → ℕ → Option ℕ
put k o m x = if k == x then o else m x

unfoldable pub apply_entries : List Entry → (ℕ → Option ℕ) → ℕ → Option ℕ
apply_entries [] m = m
apply_entries (empty_map ∷ es) m = apply_entries es (λ x. none)
apply_entries (map_key k ∷ map_value o ∷ es) m = apply_entries es (put k o m)
apply_entries (map_key k ∷ []) m = m
apply_entries (map_key k ∷ empty_map ∷ es) m = m
apply_entries (map_key k ∷ map_key j ∷ es) m = m
apply_entries (map_value o ∷ es) m = m

unfoldable pub delete_keys : List ℕ → (ℕ → Option ℕ) → ℕ → Option ℕ
delete_keys [] m = m
delete_keys (k ∷ ks) m = delete_keys ks (put k none m)
