-- ===== src/Cqlengine/ListUpdates.antt =====
-- What the assignments of a ListUpdateClause of Cqlengine.antt make of the list that is stored.
use mathlib.Core.List.{append-nil, append_assoc}
use python_driver.Prelude.{
  ℕ, zero, suc, ◌+◌, ◌-◌, ◌≡◌, refl, sym, ap, ◌∙◌, ◌⊎◌, inl, inr, Bool, true, false, ◌&&◌, ltb,
  ◌==◌, Option, none, some, List, [], ◌∷◌, ◌++◌, length, take, drop, get_or, take-append-drop,
  arith, Bool-cases, Option-cases,
}
use python_driver.Cqlengine.{
  Operation, no_operation, append, prepend, add, remove, list_eq, or_none, is_there, is_filled,
  entry, ListUpdate, unchanged, rewritten, matches, search, around, or_rewritten, found_at,
  compare_lists, analyze_value, is_previous, analyze_operation, analyze, get_context_size,
  update_context, execute, unicode, assigns, next_id, value_at, ListForm, list_is, put_before,
  put_behind,
}

-- A column that is null holds no element.
unfoldable pub or_empty : Option (List ℕ) → List ℕ
or_empty none = []
or_empty (some xs) = xs

-- What an assignment makes of the list that is stored. A server that puts the elements before the list one by one,
-- and so in the reverse order, as old versions do, is left out.
unfoldable pub effect : ListForm → List ℕ → List ℕ → List ℕ
effect list_is v stored = v
effect put_before v stored = v ++ stored
effect put_behind v stored = stored ++ v

or_stored : Option (List ℕ) → List ℕ → List ℕ
or_stored none stored = stored
or_stored (some v) stored = v

-- The list that the parts of a clause stand for.
apply : ListUpdate → List ℕ → List ℕ
unfolding or_stored
apply u stored = or_empty u.prepended ++ or_stored u.assignments stored ++ or_empty u.appended

execute-unicode :
    (a p q : Option (List ℕ)) (stored : List ℕ)
    → let u : ListUpdate = record { assignments = a; prepended = p; appended = q } in
      execute effect (unicode u) (update_context u) stored ≡ some (apply u stored)
unfolding execute effect unicode update_context apply or_stored or_empty assigns next_id value_at
    entry
execute-unicode none none none stored = ap some (sym (append-nil stored))
execute-unicode none none (some y) stored = refl
execute-unicode none (some x) none stored = ap some (sym (append-nil (x ++ stored)))
execute-unicode none (some x) (some y) stored = refl
execute-unicode (some v) none none stored = ap some (sym (append-nil v))
execute-unicode (some v) none (some y) stored = refl
execute-unicode (some v) (some x) none stored = ap some (sym (append-nil (x ++ v)))
execute-unicode (some v) (some x) (some y) stored = refl

or_empty-or_none : (xs : List ℕ) → or_empty (or_none xs) ≡ xs
unfolding or_empty or_none
or_empty-or_none [] = refl
or_empty-or_none (x ∷ xs) = refl

list_eq-true : (xs ys : List ℕ) → list_eq xs ys ≡ true → xs ≡ ys
unfolding list_eq
list_eq-true [] [] e = refl
list_eq-true [] (y ∷ ys) e = absurd (ground arith)
list_eq-true (x ∷ xs) [] e = absurd (ground arith)
list_eq-true (x ∷ xs) (y ∷ ys) e = elim (Bool-cases (x == y)) [
  | inl q ↦
      let same : x ≡ y = ground arith in
      let e' : list_eq xs ys ≡ true = rw q at e in rw (same, list_eq-true xs ys e')
  | inr q ↦ absurd (let e' : false ≡ true = rw q at e in ground arith)
]

last_of : (a b c : Bool) → (a && b && c) ≡ true → c ≡ true
last_of true true c e = e
last_of true false c e = absurd (ground arith)
last_of false true c e = absurd (ground arith)
last_of false false c e = absurd (ground arith)

matches-true : (previous sub : List ℕ) → matches previous sub ≡ true → previous ≡ sub
unfolding matches
matches-true previous sub e = list_eq-true previous sub (
    last_of (get_or previous 0 0 == get_or sub 0 0)
      (get_or previous (length previous - 1) 0 == get_or sub (length sub - 1) 0)
      (list_eq previous sub) e)

search-some :
    (value previous : List ℕ) (n i k : ℕ)
    → search value previous n i ≡ some k
    → previous ≡ take (length previous) (drop k value)
unfolding search
search-some value previous zero i k e = absurd (ground arith)
search-some value previous (suc n) i k e =
    elim (Bool-cases (matches previous (take (length previous) (drop i value)))) [
      | inl m ↦
          let e' : some i ≡ some k = rw m at e in
          let same : i ≡ k = ground arith in
          rw (← same) (matches-true previous (take (length previous) (drop i value)) m)
      | inr m ↦ search-some value previous n (i + 1) k (rw m at e)
    ]

drop_nil : (j : ℕ) → [] ≡ drop {A = ℕ} j []
drop_nil zero = refl
drop_nil (suc j) = refl

drop-drop : (i j : ℕ) (xs : List ℕ) → drop (i + j) xs ≡ drop j (drop i xs)
drop-drop zero j xs = let e : 0 + j ≡ j = omega arith in rw e
drop-drop (suc i) j [] = let e : suc i + j ≡ suc (i + j) = omega arith in rw e (drop_nil j)
drop-drop (suc i) j (x ∷ xs) =
    let e : suc i + j ≡ suc (i + j) = omega arith in rw e (drop-drop i j xs)

surrounded :
    (value previous : List ℕ) (i : ℕ)
    → previous ≡ take (length previous) (drop i value)
    → take i value ++ (previous ++ drop (i + length previous) value) ≡ value
surrounded value previous i e =
    let n = length previous in
    let d = drop-drop i n value in
    let rest = drop i value in
    let inner : previous ++ drop n rest ≡ rest =
      ap (λ (p : List ℕ). p ++ drop n rest) e ∙ take-append-drop n rest in
    rw d (ap (λ (r : List ℕ). take i value ++ r) inner ∙ take-append-drop i value)

apply-around :
    (value stored : List ℕ) (i j : ℕ)
    → apply (around value i j) stored ≡ take i value ++ (stored ++ drop j value)
unfolding apply around or_stored
apply-around value stored i j =
    let a = or_empty-or_none (take i value) in
    let b = or_empty-or_none (drop j value) in
    rw (a, b) (append_assoc (take i value) stored (drop j value))

apply-rewritten : (value stored : List ℕ) → apply (rewritten value) stored ≡ value
unfolding apply rewritten or_stored or_empty
apply-rewritten value stored = append-nil value

apply-or_rewritten :
    (value stored : List ℕ) (u : ListUpdate)
    → apply u stored ≡ value
    → apply (or_rewritten value u) stored ≡ value
unfolding or_rewritten
apply-or_rewritten value stored u e = elim (Option-cases u.prepended) [
  | inr (p, q) ↦ rw (or_rewritten, q) e
  | inl q ↦ elim (Option-cases u.appended) [
    | inr (a, r) ↦ rw (or_rewritten, q, r) e
    | inl r ↦ rw (or_rewritten, q, r) (apply-rewritten value stored)
  ]
]

apply-found_at :
    (value previous : List ℕ) (o : Option ℕ) (n : ℕ)
    → search value previous n 0 ≡ o
    → apply (found_at value previous o) previous ≡ value
unfolding found_at
apply-found_at value previous none n e = apply-rewritten value previous
apply-found_at value previous (some i) n e =
    apply-or_rewritten value previous (around value i (i + length previous)) (
      apply-around value previous i (i + length previous)
      ∙ surrounded value previous i (search-some value previous n 0 i e))

apply-compare_lists :
    (value previous : List ℕ) → apply (compare_lists value previous) previous ≡ value
unfolding compare_lists
apply-compare_lists value previous = elim (Bool-cases (ltb (length value) (length previous))) [
  | inl a ↦ rw a (apply-rewritten value previous)
  | inr a ↦ elim (Bool-cases (length previous == 0)) [
    | inl b ↦ rw (a, b) (apply-rewritten value previous)
    | inr b ↦
        let n = length value - (length previous - 1) in
        rw (a, b) (apply-found_at value previous (search value previous n 0) n refl)
  ]
]

apply-unchanged : (stored : List ℕ) → apply unchanged stored ≡ stored
unfolding apply unchanged or_empty or_stored
apply-unchanged stored = append-nil stored

apply-analyze :
    (value : List ℕ) (previous : Option (List ℕ))
    → apply (analyze no_operation (some value) previous) (or_empty previous) ≡ value
unfolding analyze analyze_operation analyze_value is_previous or_empty
apply-analyze value none = apply-rewritten value []
apply-analyze value (some previous) = elim (Bool-cases (list_eq value previous)) [
  | inl e ↦ rw e (apply-unchanged previous ∙ sym (list_eq-true value previous e))
  | inr e ↦ rw e (apply-compare_lists value previous)
]

-- As many entries as ids, or no id: then the clause is left out.
HasSize : ListUpdate → Type 0
HasSize u = (get_context_size u ≡ 0) ⊎ (length (update_context u) ≡ get_context_size u)

or_none-HasSize :
    (xs ys : List ℕ)
    → length (entry (or_none xs) ++ entry (or_none ys))
      ≡ is_filled (or_none ys) + is_filled (or_none xs)
unfolding or_none entry is_filled
or_none-HasSize [] [] = refl
or_none-HasSize [] (y ∷ ys) = refl
or_none-HasSize (x ∷ xs) [] = refl
or_none-HasSize (x ∷ xs) (y ∷ ys) = refl

rewritten-HasSize : (value : List ℕ) → HasSize (rewritten value)
unfolding HasSize rewritten get_context_size update_context entry is_there is_filled
rewritten-HasSize value = inr refl

around-HasSize : (value : List ℕ) (i j : ℕ) → HasSize (around value i j)
unfolding HasSize around get_context_size update_context entry is_there
around-HasSize value i j = inr (or_none-HasSize (take i value) (drop j value) ∙ omega arith)

or_rewritten-HasSize :
    (value : List ℕ) (u : ListUpdate) → HasSize u → HasSize (or_rewritten value u)
unfolding or_rewritten
or_rewritten-HasSize value u h = elim (Option-cases u.prepended) [
  | inr (p, q) ↦ rw (or_rewritten, q) h
  | inl q ↦ elim (Option-cases u.appended) [
    | inr (a, r) ↦ rw (or_rewritten, q, r) h
    | inl r ↦ rw (or_rewritten, q, r) (rewritten-HasSize value)
  ]
]

found_at-HasSize : (value previous : List ℕ) (o : Option ℕ) → HasSize (found_at value previous o)
unfolding found_at
found_at-HasSize value previous none = rewritten-HasSize value
found_at-HasSize value previous (some i) =
    or_rewritten-HasSize value (around value i (i + length previous))
      (around-HasSize value i (i + length previous))

analyze_value-HasSize :
    (value : List ℕ) (previous : Option (List ℕ)) → HasSize (analyze_value value previous)
unfolding analyze_value compare_lists
analyze_value-HasSize value none = rewritten-HasSize value
analyze_value-HasSize value (some previous) =
    elim (Bool-cases (ltb (length value) (length previous))) [
      | inl a ↦ rw a (rewritten-HasSize value)
      | inr a ↦ elim (Bool-cases (length previous == 0)) [
        | inl b ↦ rw (a, b) (rewritten-HasSize value)
        | inr b ↦
            rw (a, b)
              (found_at-HasSize value previous
                (search value previous (length value - (length previous - 1)) 0))
      ]
    ]

operation-HasSize :
    (op : Operation) (value : List ℕ) (previous : Option (List ℕ))
    → HasSize (analyze_operation op value previous)
unfolding analyze_operation HasSize unchanged get_context_size update_context entry is_there
    is_filled
operation-HasSize append [] previous = inl refl
operation-HasSize append (x ∷ xs) previous = inr refl
operation-HasSize prepend [] previous = inl refl
operation-HasSize prepend (x ∷ xs) previous = inr refl
operation-HasSize no_operation value previous = analyze_value-HasSize value previous
operation-HasSize add value previous = analyze_value-HasSize value previous
operation-HasSize remove value previous = analyze_value-HasSize value previous

unchanged-HasSize : HasSize unchanged
unfolding HasSize unchanged get_context_size is_there is_filled
unchanged-HasSize = inl refl

-- A clause that counts for ids of the context writes as many entries as it counts for.
length-update_context :
    (op : Operation) (value previous : Option (List ℕ))
    → (get_context_size (analyze op value previous) ≡ 0)
      ⊎ (length (update_context (analyze op value previous))
          ≡ get_context_size (analyze op value previous))
unfolding analyze HasSize
length-update_context op none previous = unchanged-HasSize
length-update_context op (some value) previous = elim (Bool-cases (is_previous value previous)) [
  | inl e ↦ rw e unchanged-HasSize
  | inr e ↦ rw e (operation-HasSize op value previous)
]

-- The assignments that an update without an operation writes turn the list that is stored into the new one, each
-- with the value that stands in the context at its id; and a clause with any operation that counts for ids
-- of the context writes as many entries as it counts for.
pub list_updated :
    (op : Operation) (value : List ℕ) (previous : Option (List ℕ))
    → (execute effect
          (unicode (analyze no_operation (some value) previous))
          (update_context (analyze no_operation (some value) previous))
          (or_empty previous)
        ≡ some value)
      × ((get_context_size (analyze op (some value) previous) ≡ 0)
          ⊎ (length (update_context (analyze op (some value) previous))
              ≡ get_context_size (analyze op (some value) previous)))
list_updated op value previous =
    let u = analyze no_operation (some value) previous in
    (
      execute-unicode u.assignments u.prepended u.appended (or_empty previous)
          ∙ ap some (apply-analyze value previous),
      length-update_context op (some value) previous,
    )
