-- ===== src/Prelude/Dict.antt =====
-- A Python dict with text keys: an association list in insertion order, which is the order that
-- CPython iterates in. Assigning to a key that is there keeps its place.
use python_driver.Prelude.{
  ℕ, ◌+◌, ◌≤◌, ◌≡◌, refl, String, Option, none, some, List, [], ◌∷◌, arith, leb, if◌then◌else◌,
  str_eq, eq_iff,
}

module _ {ℓ} {V : Type ℓ} where
  -- `d.get(k)`
  unfoldable pub lookup : String → List (String × V) → Option V
  lookup k [] = none
  lookup k ((j, v) ∷ d) = if str_eq j k then some v else lookup k d

  -- `d.get(k, default)`
  unfoldable pub lookup_or : V → String → List (String × V) → V
  lookup_or default k [] = default
  lookup_or default k ((j, v) ∷ d) = if str_eq j k then v else lookup_or default k d

  -- `d[k] = v`
  unfoldable pub insert : String → V → List (String × V) → List (String × V)
  insert k v [] = (k, v) ∷ []
  insert k v ((j, w) ∷ d) = if str_eq j k then (k, v) ∷ d else (j, w) ∷ insert k v d

  -- `del d[k]`, where the key is there
  unfoldable pub delete : String → List (String × V) → List (String × V)
  delete k [] = []
  delete k ((j, w) ∷ d) = let rest = delete k d in if str_eq j k then rest else (j, w) ∷ rest

  -- `d.keys()`
  unfoldable pub keys : List (String × V) → List String
  keys [] = []
  keys ((j, w) ∷ d) = j ∷ keys d

  -- How often the key stands in the list.
  unfoldable pub times : String → List (String × V) → ℕ
  times k [] = 0
  times k ((j, w) ∷ d) = (if str_eq j k then 1 else 0) + times k d

  -- The representation invariant of a dict.
  abbrev pub IsDict : List (String × V) → Type 0
  IsDict d = (k : String) → times k d ≤ 1

module _ {ℓ} {V : Type ℓ} where
  pub lookup_or-insert :
      (default : V) (k j : String) (v : V) (d : List (String × V))
      → lookup_or default j (insert k v d) ≡ (if str_eq k j then v else lookup_or default j d)
  unfolding lookup_or insert
  lookup_or-insert default k j v [] = ground (arith, eq_iff k j)
  lookup_or-insert default k j v ((i, w) ∷ d) =
      ground (arith, lookup_or-insert default k j v d, eq_iff k j, eq_iff i k, eq_iff i j)

  pub lookup_or-delete :
      (default : V) (k j : String) (d : List (String × V))
      → lookup_or default j (delete k d) ≡ (if str_eq k j then default else lookup_or default j d)
  unfolding lookup_or delete
  lookup_or-delete default k j [] = ground arith
  lookup_or-delete default k j ((i, w) ∷ d) =
      ground (arith, lookup_or-delete default k j d, eq_iff k j, eq_iff i k, eq_iff i j)

  pub lookup-insert :
      (k j : String) (v : V) (d : List (String × V))
      → lookup j (insert k v d) ≡ (if str_eq k j then some v else lookup j d)
  unfolding lookup insert
  lookup-insert k j v [] = ground (arith, eq_iff k j)
  lookup-insert k j v ((i, w) ∷ d) =
      ground (arith, lookup-insert k j v d, eq_iff k j, eq_iff i k, eq_iff i j)

  times-insert :
      (k j : String) (v : V) (d : List (String × V))
      → times j (insert k v d)
        ≤ (if str_eq k j then (if leb (times k d) 0 then 1 else times k d) else times j d)
  unfolding times insert
  times-insert k j v [] = ground (arith, eq_iff k j)
  times-insert k j v ((i, w) ∷ d) =
      ground (arith, times-insert k j v d, eq_iff k j, eq_iff i k, eq_iff i j)

  times-delete : (k j : String) (d : List (String × V)) → times j (delete k d) ≤ times j d
  unfolding times delete
  times-delete k j [] = ground arith
  times-delete k j ((i, w) ∷ d) = ground (arith, times-delete k j d)

  pub insert-IsDict :
      (k : String) (v : V) (d : List (String × V)) → IsDict d → IsDict (insert k v d)
  insert-IsDict k v d h j = ground (arith, times-insert k j v d, h j, h k)

  pub delete-IsDict : (k : String) (d : List (String × V)) → IsDict d → IsDict (delete k d)
  delete-IsDict k d h j = ground (arith, times-delete k j d, h j)

  pub lookup_or_absent :
      (default : V) (k : String) (d : List (String × V))
      → times k d ≡ 0
      → lookup_or default k d ≡ default
  unfolding lookup_or times
  lookup_or_absent default k [] h = refl
  lookup_or_absent default k ((i, w) ∷ d) h = ground (arith, lookup_or_absent default k d)
