-- ===== src/Cqlengine/SetUpdates/Applied.antt =====
-- What the assignments of a SetUpdateClause of Cqlengine/SetUpdates.antt make of the set that is stored.
use mathlib.Core.List.{append-nil}
use python_driver.Prelude.{
  if◌then◌else◌, ℕ, ◌+◌, ◌≡◌, refl, sym, ap, ◌∙◌, ◌⊎◌, inl, inr, Bool, true, false, not, ◌&&◌, ◌||◌,
  ◌==◌, Option, none, some, List, [], ◌∷◌, ◌++◌, length, arith, Bool-cases,
}
use python_driver.Cqlengine.{
  Operation, no_operation, append, prepend, add, remove, or_none, is_filled, entry, assigns,
  next_id, value_at, execute,
}
use python_driver.Cqlengine.SetUpdates.{
  member, minus, is_subset, set_eq, SetUpdate, unchanged, is_previous, analyze_value,
  analyze_operation, analyze, is_none, get_context_size, is_emptied, update_context, or_empty,
  unicode, effect,
}

or_stored : Option (List ℕ) → List ℕ → List ℕ
or_stored none stored = stored
or_stored (some v) stored = v

-- The set that the parts of a clause stand for.
apply : SetUpdate → Option (List ℕ) → List ℕ → List ℕ
unfolding or_stored
apply u previous stored =
    if is_emptied u previous
    then []
    else minus (or_stored u.assignments stored ++ or_empty u.additions) (or_empty u.removals)

minus-nil : (xs : List ℕ) → xs ≡ minus xs []
unfolding minus member
minus-nil [] = refl
minus-nil (x ∷ xs) = ap (λ (l : List ℕ). x ∷ l) (minus-nil xs)

nothing_else : (xs : List ℕ) → xs ≡ minus (xs ++ []) []
nothing_else xs = rw append-nil (minus-nil xs)

not_emptied :
    (a b c : Option (List ℕ)) (stored : List ℕ) (previous : Option (List ℕ))
    → let u : SetUpdate = record { assignments = a; additions = b; removals = c } in
      is_emptied u previous ≡ false
      → execute effect (unicode u previous) (update_context u previous) stored
        ≡ some (apply u previous stored)
unfolding execute effect unicode update_context apply or_stored or_empty assigns next_id value_at
    entry
not_emptied none none none stored previous e = rw e (ap some (nothing_else stored))
not_emptied none none (some z) stored previous e =
    rw e (ap (λ (l : List ℕ). some (minus l z)) (sym (append-nil stored)))
not_emptied none (some y) none stored previous e = rw e (ap some (minus-nil (stored ++ y)))
not_emptied none (some y) (some z) stored previous e = rw e refl
not_emptied (some v) none none stored previous e = rw e (ap some (nothing_else v))
not_emptied (some v) none (some z) stored previous e =
    rw e (ap (λ (l : List ℕ). some (minus l z)) (sym (append-nil v)))
not_emptied (some v) (some y) none stored previous e = rw e (ap some (minus-nil (v ++ y)))
not_emptied (some v) (some y) (some z) stored previous e = rw e refl

member-append : (x : ℕ) (xs ys : List ℕ) → member x (xs ++ ys) ≡ (member x xs || member x ys)
unfolding member
member-append x [] ys = refl
member-append x (y ∷ xs) ys = ground (arith, member-append x xs ys)

none_left : (a b c : Bool) → c ≡ (a && not b) → b ≡ true → c ≡ false
none_left true true c e q = e
none_left false true c e q = e
none_left a false c e q = absurd (ground arith)

member-minus :
    (x : ℕ) (xs ys : List ℕ) → member x (minus xs ys) ≡ (member x xs && not (member x ys))
unfolding member minus
member-minus x [] ys = refl
member-minus x (y ∷ xs) ys = elim (Bool-cases (member y ys)) [
  | inl m ↦ elim (Bool-cases (y == x)) [
    | inl e ↦
        let q : y ≡ x = ground arith in
        let m' : member x ys ≡ true = rw q at m in
        rw (m, e, m')
          (none_left (member x xs) (member x ys) (member x (minus xs ys)) (member-minus x xs ys) m')
    | inr e ↦ rw (m, e) (member-minus x xs ys)
  ]
  | inr m ↦ elim (Bool-cases (y == x)) [
    | inl e ↦
        let q : y ≡ x = ground arith in
        let m' : member x ys ≡ false = rw q at m in rw (m, e, m') refl
    | inr e ↦ rw (m, e) (member-minus x xs ys)
  ]
]

subset-member :
    (x : ℕ) (xs ys : List ℕ) → is_subset xs ys ≡ true → member x xs ≡ true → member x ys ≡ true
unfolding is_subset member
subset-member x [] ys s m = absurd (ground arith)
subset-member x (y ∷ xs) ys s m = elim (Bool-cases (member y ys)) [
  | inr n ↦ absurd (let s' : false ≡ true = rw n at s in ground arith)
  | inl n ↦ elim (Bool-cases (y == x)) [
    | inl e ↦ let q : y ≡ x = ground arith in rw (← q) n
    | inr e ↦ subset-member x xs ys (rw n at s) (rw e at m)
  ]
]

both : (a b : Bool) → (a && b) ≡ true → (a ≡ true) × (b ≡ true)
both true b e = (refl, e)
both false b e = absurd (ground arith)

same_truth : (a b : Bool) → (a ≡ true → b ≡ true) → (b ≡ true → a ≡ true) → b ≡ a
same_truth true b f g = f refl
same_truth false true f g = sym (g refl)
same_truth false false f g = refl

set_eq-member : (x : ℕ) (xs ys : List ℕ) → set_eq xs ys ≡ true → member x ys ≡ member x xs
unfolding set_eq
set_eq-member x xs ys e =
    let (f, g) = both (is_subset xs ys) (is_subset ys xs) e in
    same_truth (member x xs) (member x ys) (subset-member x xs ys f) (subset-member x ys xs g)

or_empty-or_none : (xs : List ℕ) → or_empty (or_none xs) ≡ xs
unfolding or_empty or_none
or_empty-or_none [] = refl
or_empty-or_none (x ∷ xs) = refl

patched : (p v : Bool) → ((p || (v && not p)) && not (p && not v)) ≡ v
patched true true = refl
patched true false = refl
patched false true = refl
patched false false = refl

member-patched :
    (x : ℕ) (value previous : List ℕ)
    → member x (minus (previous ++ minus value previous) (minus previous value)) ≡ member x value
member-patched x value previous =
    member-minus x (previous ++ minus value previous) (minus previous value)
    ∙ rw
        (
          member-append x previous (minus value previous),
          member-minus x value previous,
          member-minus x previous value,
        )
        (patched (member x previous) (member x value))

kept : (m : Bool) → ((m || false) && not false) ≡ m
kept true = refl
kept false = refl

member-unchanged : (x : ℕ) (stored : List ℕ) → member x (minus (stored ++ []) []) ≡ member x stored
unfolding member
member-unchanged x stored =
    member-minus x (stored ++ []) []
    ∙ ap (λ (b : Bool). b && not false) (member-append x stored [])
    ∙ kept (member x stored)

member-apply-unchanged :
    (x : ℕ) (previous : List ℕ)
    → member x (apply unchanged (some previous) previous) ≡ member x previous
unfolding apply unchanged is_emptied is_none or_empty or_stored
member-apply-unchanged x previous = member-unchanged x previous

member-apply_value :
    (x : ℕ) (value previous : List ℕ)
    → member x (apply (analyze_value value (some previous)) (some previous) previous)
      ≡ member x value
unfolding apply analyze_value unchanged is_emptied is_none or_stored
member-apply_value x value previous =
    let a = or_empty-or_none (minus value previous) in
    let r = or_empty-or_none (minus previous value) in rw (a, r) (member-patched x value previous)

member-apply :
    (x : ℕ) (value : List ℕ) (previous : Option (List ℕ))
    → member x (apply (analyze no_operation (some value) previous) previous (or_empty previous))
      ≡ member x value
unfolding apply analyze analyze_operation analyze_value is_previous is_emptied is_none unchanged
    or_empty or_stored
member-apply x value none = member-unchanged x value
member-apply x value (some previous) = elim (Bool-cases (set_eq value previous)) [
  | inl e ↦
      let u : analyze no_operation (some value) (some previous) ≡ unchanged = rw e refl in
      ap (λ (u : SetUpdate). member x (apply u (some previous) previous)) u
      ∙ member-apply-unchanged x previous
      ∙ set_eq-member x value previous e
  | inr e ↦
      let u : analyze no_operation (some value) (some previous)
          ≡ analyze_value value (some previous) =
        rw e refl in
      ap (λ (u : SetUpdate). member x (apply u (some previous) previous)) u
      ∙ member-apply_value x value previous
]

HasSize : SetUpdate → Option (List ℕ) → Type 0
HasSize u previous =
    (get_context_size u previous ≡ 0)
    ⊎ (length (update_context u previous) ≡ get_context_size u previous)

unchanged-HasSize : (previous : Option (List ℕ)) → HasSize unchanged previous
unfolding HasSize unchanged get_context_size update_context is_emptied is_none is_filled entry
unchanged-HasSize none = inr refl
unchanged-HasSize (some previous) = inl refl

or_none-HasSize :
    (xs ys : List ℕ)
    → length (entry (or_none xs) ++ entry (or_none ys))
      ≡ is_filled (or_none xs) + is_filled (or_none ys)
unfolding or_none entry is_filled
or_none-HasSize [] [] = refl
or_none-HasSize [] (y ∷ ys) = refl
or_none-HasSize (x ∷ xs) [] = refl
or_none-HasSize (x ∷ xs) (y ∷ ys) = refl

analyze_value-HasSize :
    (value : List ℕ) (previous : Option (List ℕ)) → HasSize (analyze_value value previous) previous
unfolding HasSize analyze_value unchanged get_context_size update_context is_emptied is_none
    is_filled entry
analyze_value-HasSize [] none = inr refl
analyze_value-HasSize (x ∷ xs) none = inr refl
analyze_value-HasSize value (some previous) =
    inr (or_none-HasSize (minus value previous) (minus previous value) ∙ omega arith)

operation-HasSize :
    (op : Operation) (value : List ℕ) (previous : Option (List ℕ))
    → HasSize (analyze_operation op value previous) previous
unfolding HasSize analyze_operation unchanged get_context_size update_context is_emptied is_none
    is_filled entry
operation-HasSize add [] none = inl refl
operation-HasSize add (x ∷ xs) none = inr refl
operation-HasSize add [] (some previous) = inl refl
operation-HasSize add (x ∷ xs) (some previous) = inr refl
operation-HasSize remove [] none = inl refl
operation-HasSize remove (x ∷ xs) none = inr refl
operation-HasSize remove [] (some previous) = inl refl
operation-HasSize remove (x ∷ xs) (some previous) = inr refl
operation-HasSize no_operation value previous = analyze_value-HasSize value previous
operation-HasSize append value previous = analyze_value-HasSize value previous
operation-HasSize prepend value previous = analyze_value-HasSize value previous

-- A clause that counts for ids of the context writes as many entries as it counts for.
length-update_context :
    (op : Operation) (value previous : Option (List ℕ))
    → (get_context_size (analyze op value previous) previous ≡ 0)
      ⊎ (length (update_context (analyze op value previous) previous)
          ≡ get_context_size (analyze op value previous) previous)
unfolding analyze HasSize
length-update_context op none previous = unchanged-HasSize previous
length-update_context op (some value) previous = elim (Bool-cases (is_previous value previous)) [
  | inl e ↦ rw e (unchanged-HasSize previous)
  | inr e ↦ rw e (operation-HasSize op value previous)
]

analyze-is_emptied :
    (value : List ℕ) (previous : Option (List ℕ))
    → is_emptied (analyze no_operation (some value) previous) previous ≡ false
unfolding analyze analyze_operation analyze_value is_previous is_emptied is_none unchanged
analyze-is_emptied value none = refl
analyze-is_emptied value (some previous) = refl

-- The assignments that an update without an operation writes, each with the value that stands in the context at its
-- id, leave of the set that is stored a set with the members of the new one; and a clause with any
-- operation that counts for ids of the context writes as many entries as it counts for.
pub set_updated :
    (x : ℕ) (op : Operation) (value : List ℕ) (previous : Option (List ℕ))
    → ((ys : List ℕ) × (execute effect
            (unicode (analyze no_operation (some value) previous) previous)
            (update_context (analyze no_operation (some value) previous) previous)
            (or_empty previous)
          ≡ some ys)
        × (member x ys ≡ member x value))
      × ((get_context_size (analyze op (some value) previous) previous ≡ 0)
          ⊎ (length (update_context (analyze op (some value) previous) previous)
              ≡ get_context_size (analyze op (some value) previous) previous))
set_updated x op value previous =
    let u = analyze no_operation (some value) previous in
    (
      (
        apply u previous (or_empty previous),
        not_emptied u.assignments u.additions u.removals (or_empty previous) previous
            (analyze-is_emptied value previous),
        member-apply x value previous,
      ),
      length-update_context op (some value) previous,
    )
