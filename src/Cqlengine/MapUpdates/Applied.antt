-- ===== src/Cqlengine/MapUpdates/Applied.antt =====
-- The entries of a MapUpdateClause and a MapDeleteClause make the new map of the old one
-- (Cqlengine/MapUpdates.antt).
use python_driver.Prelude.{
  ℕ, ◌*◌, ◌≡◌, refl, sym, ap, ◌∙◌, Bool, true, false, ◌==◌, Option, none, some, List, [], ◌∷◌,
  if◌then◌else◌, length, arith, inl, inr, ◌⊎◌, Bool-cases,
}
use python_driver.Cqlengine.SetUpdates.{member}
use python_driver.Cqlengine.MapUpdates.{
  get, option_eq, insert, sorted, changed, keys, updates, is_assignment, get_context_size,
  empty_map, key_entries, update_context, missing, or_empty, removals, put, apply_entries,
  delete_keys,
}

member-insert :
    (x k : ℕ) (l : List ℕ) → member x (insert k l) ≡ (if k == x then true else member x l)
unfolding member insert
member-insert x k [] = refl
member-insert x k (j ∷ l) = ground (arith, member-insert x k l)

member-sorted : (x : ℕ) (l : List ℕ) → member x (sorted l) ≡ member x l
unfolding member sorted
member-sorted x [] = refl
member-sorted x (k ∷ l) =
    member-insert x k (sorted l) ∙ ap (λ (b : Bool). if k == x then true else b) (member-sorted x l)

same_either {ℓ} : {A : Type ℓ} (b : Bool) (a : A) → (if b then a else a) ≡ a
same_either true a = refl
same_either false a = refl

one_put :
    (b : Bool) (k x : ℕ) (f : ℕ → Option ℕ) (o : Option ℕ)
    → (if b then f x else (if k == x then f k else o))
      ≡ (if (if k == x then true else b) then f x else o)
one_put b k x f o = elim (Bool-cases (k == x)) [
  | inl e ↦ let q : k ≡ x = ground arith in rw (e, q) (same_either b (f x))
  | inr e ↦ rw e refl
]

apply-key_entries :
    (value : List (ℕ × ℕ)) (ks : List ℕ) (m : ℕ → Option ℕ) (x : ℕ)
    → apply_entries (key_entries value ks) m x ≡ (if member x ks then get value x else m x)
unfolding apply_entries key_entries member put
apply-key_entries value [] m x = refl
apply-key_entries value (k ∷ ks) m x =
    apply-key_entries value ks (put k (get value k) m) x
    ∙ one_put (member x ks) k x (get value) (m x)

delete_keys-member :
    (ks : List ℕ) (m : ℕ → Option ℕ) (x : ℕ)
    → delete_keys ks m x ≡ (if member x ks then none else m x)
unfolding delete_keys member put
delete_keys-member [] m x = refl
delete_keys-member (k ∷ ks) m x =
    delete_keys-member ks (put k none m) x ∙ one_put (member x ks) k x (λ y. none) (m x)

-- A key is unchanged if the old and the new dict agree on it, or it is in neither.
member-keys : (x : ℕ) (d : List (ℕ × ℕ)) → member x (keys d) ≡ false → get d x ≡ none
unfolding member keys get
member-keys x [] e = refl
member-keys x ((k, v) ∷ d) e = elim (Bool-cases (k == x)) [
  | inl q ↦ absurd (let e' : true ≡ false = rw q at e in ground arith)
  | inr q ↦ rw q (member-keys x d (rw q at e))
]

option_eq-true : (o q : Option ℕ) → option_eq o q ≡ true → o ≡ q
unfolding option_eq
option_eq-true none none e = refl
option_eq-true none (some w) e = absurd (ground arith)
option_eq-true (some v) none e = absurd (ground arith)
option_eq-true (some v) (some w) e = ground arith

member-changed :
    (x : ℕ) (d p : List (ℕ × ℕ))
    → member x (changed d p) ≡ false
    → (get d x ≡ none) ⊎ (get d x ≡ get p x)
unfolding member changed get
member-changed x [] p e = inl refl
member-changed x ((k, v) ∷ d) p e = elim (Bool-cases (option_eq (some v) (get p k))) [
  | inl o ↦ elim (Bool-cases (k == x)) [
    | inl q ↦
        let same : k ≡ x = ground arith in
        rw q (inr (option_eq-true (some v) (get p k) o ∙ ap (get p) same))
    | inr q ↦ rw q (member-changed x d p (rw o at e))
  ]
  | inr o ↦
      let e' : (if k == x then true else member x (changed d p)) ≡ false = rw o at e in
      elim (Bool-cases (k == x)) [
        | inl q ↦ absurd (let e2 : true ≡ false = rw q at e' in ground arith)
        | inr q ↦ rw q (member-changed x d p (rw q at e'))
      ]
]

member-missing :
    (x : ℕ) (p d : List (ℕ × ℕ))
    → member x (missing p d) ≡ false
    → (get p x ≡ none) ⊎ (option_eq (get d x) none ≡ false)
unfolding member missing get
member-missing x [] d e = inl refl
member-missing x ((k, v) ∷ p) d e = elim (Bool-cases (option_eq (get d k) none)) [
  | inr o ↦ elim (Bool-cases (k == x)) [
    | inl q ↦ let same : k ≡ x = ground arith in inr (rw (← same) o)
    | inr q ↦ rw q (member-missing x p d (rw o at e))
  ]
  | inl o ↦
      let e' : (if k == x then true else member x (missing p d)) ≡ false = rw o at e in
      elim (Bool-cases (k == x)) [
        | inl q ↦ absurd (let e2 : true ≡ false = rw q at e' in ground arith)
        | inr q ↦ rw q (member-missing x p d (rw q at e'))
      ]
]

-- Only keys that the new dict has not are missing.
missing-get : (x : ℕ) (p d : List (ℕ × ℕ)) → member x (missing p d) ≡ true → get d x ≡ none
unfolding member missing
missing-get x [] d e = absurd (ground arith)
missing-get x ((k, v) ∷ p) d e = elim (Bool-cases (option_eq (get d k) none)) [
  | inr o ↦ missing-get x p d (rw o at e)
  | inl o ↦
      let e' : (if k == x then true else member x (missing p d)) ≡ true = rw o at e in
      elim (Bool-cases (k == x)) [
        | inl q ↦
            let same : k ≡ x = ground arith in
            ap (get d) (sym same) ∙ option_eq-true (get d k) none o
        | inr q ↦ missing-get x p d (rw q at e')
      ]
]

absent : (x : ℕ) (l : List ℕ) → (length l == 0) ≡ true → member x l ≡ false
unfolding member
absent x [] e = refl
absent x (k ∷ l) e = absurd (ground arith)

from_nothing :
    (x : ℕ) (value : List (ℕ × ℕ)) (b : Bool)
    → member x (keys value) ≡ b
    → (if b then get value x else none) ≡ get value x
from_nothing x value true e = refl
from_nothing x value false e = sym (member-keys x value e)

from_old :
    (x : ℕ) (value p : List (ℕ × ℕ)) (r u : Bool)
    → member x (missing p value) ≡ r
    → member x (changed value p) ≡ u
    → (if r then none else (if u then get value x else get p x)) ≡ get value x
unfolding option_eq
from_old x value p true u er eu = sym (missing-get x p value er)
from_old x value p false true er eu = refl
from_old x value p false false er eu = elim (member-changed x value p eu) [
  | inr same ↦ sym same
  | inl gone ↦ elim (member-missing x p value er) [
    | inl e ↦ e ∙ sym gone
    | inr e ↦ absurd (let e' : true ≡ false = rw gone at e in ground arith)
  ]
]

length-key_entries :
    (value : List (ℕ × ℕ)) (ks : List ℕ) → length (key_entries value ks) ≡ length ks * 2
unfolding key_entries
length-key_entries value [] = refl
length-key_entries value (k ∷ ks) = omega (arith, length-key_entries value ks)

applied :
    (x : ℕ) (value : List (ℕ × ℕ)) (previous : Option (List (ℕ × ℕ)))
    → delete_keys
        (removals value previous)
        (apply_entries (update_context value previous) (get (or_empty previous)))
        x
      ≡ get value x
unfolding removals update_context is_assignment updates or_empty missing sorted get apply_entries
    member key_entries
applied x value none = elim (Bool-cases (length (sorted (keys value)) == 0)) [
  | inl e ↦
      let gone = sym (member-sorted x (keys value)) ∙ absent x (sorted (keys value)) e in
      rw e (
        delete_keys-member [] (apply_entries (empty_map ∷ []) (get [])) x
        ∙ sym (member-keys x value gone))
  | inr e ↦ rw e (
      delete_keys-member [] (apply_entries (key_entries value (sorted (keys value))) (get [])) x
      ∙ apply-key_entries value (sorted (keys value)) (get []) x
      ∙ ap (λ (b : Bool). if b then get value x else none) (member-sorted x (keys value))
      ∙ from_nothing x value (member x (keys value)) refl)
]
applied x value (some p) =
    delete_keys-member (sorted (missing p value))
      (apply_entries (key_entries value (sorted (changed value p))) (get p)) x
    ∙ ap (λ (o : Option ℕ). if member x (sorted (missing p value)) then none else o)
        (apply-key_entries value (sorted (changed value p)) (get p) x
          ∙ ap (λ (b : Bool). if b then get value x else get p x)
              (member-sorted x (changed value p)))
    ∙ ap
        (λ (b : Bool).
          if b then none else (if member x (changed value p) then get value x else get p x))
        (member-sorted x (missing p value))
    ∙ from_old x value p (member x (missing p value)) (member x (changed value p)) refl refl

size_kept :
    (value : List (ℕ × ℕ)) (previous : Option (List (ℕ × ℕ)))
    → length (update_context value previous) ≡ get_context_size value previous
unfolding update_context get_context_size
size_kept value previous = elim (Bool-cases (is_assignment value previous)) [
  | inl e ↦ rw e refl
  | inr e ↦ rw e (length-key_entries value (updates value previous))
]

-- The entries of an update of a map without an operation, and the keys that are deleted, turn the map that is stored
-- into the new one, and the update writes as many entries as it counts ids for.
pub map_updated :
    (x : ℕ) (value : List (ℕ × ℕ)) (previous : Option (List (ℕ × ℕ)))
    → (delete_keys
          (removals value previous)
          (apply_entries (update_context value previous) (get (or_empty previous)))
          x
        ≡ get value x)
      × (length (update_context value previous) ≡ get_context_size value previous)
map_updated x value previous = (applied x value previous, size_kept value previous)
