-- ===== src/Concurrent/Sorting.antt =====
-- Sorting the results by their indices (Concurrent.antt).
use python_driver.Prelude.{
  ℕ, zero, suc, ◌+◌, ◌≤◌, ◌<◌, ◌≡◌, refl, ap, ◌∙◌, ltb, ltb→lt, leb, ◌==◌, List, [], ◌∷◌,
  if◌then◌else◌, map, arith, inl, inr, Bool-cases,
}
use python_driver.Concurrent.{ExecutionResult, insert_sorted, sorted}

unfoldable pub first : ℕ × ExecutionResult → ℕ
first (i, r) = i

-- How often the index stands in the list.
unfoldable pub times : ℕ → List ℕ → ℕ
times i [] = 0
times i (j ∷ js) = (if i == j then 1 else 0) + times i js

unfoldable pub times_in : ℕ → List (ℕ × ExecutionResult) → ℕ
times_in i [] = 0
times_in i ((j, r) ∷ l) = (if i == j then 1 else 0) + times_in i l

-- k, k + 1, …, k + n - 1
unfoldable pub upto : ℕ → ℕ → List ℕ
upto k zero = []
upto k (suc n) = k ∷ upto (k + 1) n

abbrev AllAbove : ℕ → List (ℕ × ExecutionResult) → Type 0
AllAbove k [] = Unit {0}
AllAbove k ((j, r) ∷ l) = (k ≤ j) × AllAbove k l

abbrev IsSorted : List (ℕ × ExecutionResult) → Type 0
IsSorted [] = Unit {0}
IsSorted ((j, r) ∷ l) = AllAbove j l × IsSorted l

times_in-insert_sorted :
    (i j : ℕ) (r : ExecutionResult) (l : List (ℕ × ExecutionResult))
    → times_in i (insert_sorted (j, r) l) ≡ (if i == j then 1 else 0) + times_in i l
unfolding times_in insert_sorted
times_in-insert_sorted i j r [] = refl
times_in-insert_sorted i j r ((h, q) ∷ l) = ground (arith, times_in-insert_sorted i j r l)

pub times_in-sorted :
    (i : ℕ) (l : List (ℕ × ExecutionResult)) → times_in i (sorted l) ≡ times_in i l
unfolding times_in sorted
times_in-sorted i [] = refl
times_in-sorted i ((j, r) ∷ l) =
    times_in-insert_sorted i j r (sorted l)
    ∙ ap (λ (n : ℕ). (if i == j then 1 else 0) + n) (times_in-sorted i l)

lower-AllAbove : (k m : ℕ) (l : List (ℕ × ExecutionResult)) → k ≤ m → AllAbove m l → AllAbove k l
lower-AllAbove k m [] h a = tt
lower-AllAbove k m ((j, r) ∷ l) h a = (omega (arith, a.0), lower-AllAbove k m l h a.1)

insert_sorted-AllAbove :
    (k j : ℕ) (r : ExecutionResult) (l : List (ℕ × ExecutionResult))
    → k ≤ j
    → AllAbove k l
    → AllAbove k (insert_sorted (j, r) l)
unfolding insert_sorted
insert_sorted-AllAbove k j r [] h a = (h, tt)
insert_sorted-AllAbove k j r ((m, q) ∷ l) h a = elim (Bool-cases (leb j m)) [
  | inl e ↦ rw e (h, a)
  | inr e ↦ rw e (a.0, insert_sorted-AllAbove k j r l h a.1)
]

insert_sorted-IsSorted :
    (j : ℕ) (r : ExecutionResult) (l : List (ℕ × ExecutionResult))
    → IsSorted l
    → IsSorted (insert_sorted (j, r) l)
unfolding insert_sorted
insert_sorted-IsSorted j r [] a = (tt, tt)
insert_sorted-IsSorted j r ((m, q) ∷ l) a = elim (Bool-cases (leb j m)) [
  | inl e ↦ let le : j ≤ m = ground arith in rw e ((le, lower-AllAbove j m l le a.0), a)
  | inr e ↦
      let le : m ≤ j = ground arith in
      rw e (insert_sorted-AllAbove m j r l le a.0, insert_sorted-IsSorted j r l a.1)
]

pub sorted-IsSorted : (l : List (ℕ × ExecutionResult)) → IsSorted (sorted l)
unfolding sorted
sorted-IsSorted [] = tt
sorted-IsSorted ((j, r) ∷ l) = insert_sorted-IsSorted j r (sorted l) (sorted-IsSorted l)

none_below :
    (k : ℕ) (l : List (ℕ × ExecutionResult)) (i : ℕ) → AllAbove k l → i < k → times_in i l ≡ 0
unfolding times_in
none_below k [] i a h = refl
none_below k ((j, r) ∷ l) i a h =
    let ih = none_below k l i a.1 h in let le = a.0 in ground (arith, ih, le)

least :
    (j k n t : ℕ)
    → (k < j → t ≡ 0)
    → k ≤ j
    → (if k == j then 1 else 0) + t ≡ (if ltb k k then 0 else (if ltb k (k + suc n) then 1 else 0))
    → j ≡ k
least j k n t z le e = elim (Bool-cases (ltb k j)) [
  | inl lt ↦ absurd (let t0 = z (ltb→lt k j lt) in ground (arith, t0))
  | inr ge ↦ ground arith
]

others :
    (i k n t : ℕ)
    → (if i == k then 1 else 0) + t ≡ (if ltb i k then 0 else (if ltb i (k + suc n) then 1 else 0))
    → t ≡ (if ltb i (k + 1) then 0 else (if ltb i (k + 1 + n) then 1 else 0))
others i k n t e = ground arith

-- A sorted list in which each index from `k` to `k + n - 1` stands once, and no other, is these in order.
pub sorted_once :
    (n k : ℕ) (l : List (ℕ × ExecutionResult))
    → IsSorted l
    → ((i : ℕ) → times_in i l ≡ (if ltb i k then 0 else (if ltb i (k + n) then 1 else 0)))
    → map first l ≡ upto k n
unfolding times_in upto first
sorted_once zero k [] s c = refl
sorted_once zero k ((j, r) ∷ l) s c = absurd (let e = c j in ground (arith, e))
sorted_once (suc n) k [] s c = absurd (let e = c k in ground (arith, e))
sorted_once (suc n) k ((j, r) ∷ l) s c =
    let e1 = c j in
    let lo : k ≤ j = ground (arith, e1) in
    let z = none_below j l k s.0 in
    let e2 = c k in
    let same : j ≡ k = least j k n (times_in k l) z lo e2 in
    rw same
      (ap (◌∷◌ k) (sorted_once n (k + 1) l s.1 (λ i. others i k n (times_in i l) (rw same at c i))))
