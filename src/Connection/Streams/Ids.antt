-- ===== src/Connection/Streams/Ids.antt =====
-- How often a stream id stands in the collections of Connection/Streams.antt, and their lengths.
use python_driver.Prelude.{
  ℕ, zero, suc, ◌+◌, ◌≤◌, ◌≡◌, refl, some, List, [], ◌∷◌, ◌++◌, arith, ltb, leb, ◌==◌, length,
  if◌then◌else◌,
}
use python_driver.Connection.Streams.{
  range_from, assign, request_at, remove_request, holds, without,
}

pub occurs : ℕ → List ℕ → ℕ
occurs k [] = 0
occurs k (j ∷ js) = (if j == k then 1 else 0) + occurs k js

pub registered : ℕ → List (ℕ × ℕ) → ℕ
registered k [] = 0
registered k ((j, r) ∷ d) = (if j == k then 1 else 0) + registered k d

pub occurs-nil : (k : ℕ) → occurs k [] ≡ 0
unfolding occurs
occurs-nil k = refl

pub registered-nil : (k : ℕ) → registered k [] ≡ 0
unfolding registered
registered-nil k = refl

pub occurs-cons :
    (k j : ℕ) (js : List ℕ) → occurs k (j ∷ js) ≡ (if j == k then 1 else 0) + occurs k js
unfolding occurs
occurs-cons k j js = refl

pub occurs-append : (k : ℕ) (xs ys : List ℕ) → occurs k (xs ++ ys) ≡ occurs k xs + occurs k ys
unfolding occurs
occurs-append k [] ys = omega arith
occurs-append k (x ∷ xs) ys = omega (arith, occurs-append k xs ys)

pub occurs-range_from :
    (k start n : ℕ)
    → occurs k (range_from start n)
      ≡ (if leb start k then (if ltb k (start + n) then 1 else 0) else 0)
unfolding occurs range_from
occurs-range_from k start zero = ground arith
occurs-range_from k start (suc n) = ground (arith, occurs-range_from k (start + 1) n)

pub length-range_from : (start n : ℕ) → length (range_from start n) ≡ n
unfolding range_from
length-range_from start zero = refl
length-range_from start (suc n) = omega (arith, length-range_from (start + 1) n)

pub occurs-without :
    (k j : ℕ) (js : List ℕ) → occurs k (without j js) ≡ (if j == k then 0 else occurs k js)
unfolding occurs without
occurs-without k j [] = ground arith
occurs-without k j (i ∷ js) = ground (arith, occurs-without k j js)

pub length-without : (j : ℕ) (js : List ℕ) → length (without j js) + occurs j js ≡ length js
unfolding occurs without
length-without j [] = refl
length-without j (i ∷ js) = ground (arith, length-without j js)

pub holds-occurs : (k : ℕ) (js : List ℕ) → holds k js ≡ leb 1 (occurs k js)
unfolding holds occurs
holds-occurs k [] = refl
holds-occurs k (j ∷ js) = ground (arith, holds-occurs k js)

pub registered-assign :
    (k j r : ℕ) (d : List (ℕ × ℕ))
    → registered k (assign j r d)
      ≡ (if j == k then (if registered j d == 0 then 1 else registered j d) else registered k d)
unfolding registered assign
registered-assign k j r [] = ground arith
registered-assign k j r ((i, s) ∷ d) = ground (arith, registered-assign k j r d)

pub length-assign :
    (j r : ℕ) (d : List (ℕ × ℕ))
    → length (assign j r d) ≡ (if registered j d == 0 then length d + 1 else length d)
unfolding registered assign
length-assign j r [] = ground arith
length-assign j r ((i, s) ∷ d) = ground (arith, length-assign j r d)

pub registered-remove_request :
    (k j : ℕ) (d : List (ℕ × ℕ))
    → registered k (remove_request j d) ≡ (if j == k then 0 else registered k d)
unfolding registered remove_request
registered-remove_request k j [] = ground arith
registered-remove_request k j ((i, s) ∷ d) = ground (arith, registered-remove_request k j d)

pub length-remove_request :
    (j : ℕ) (d : List (ℕ × ℕ)) → length (remove_request j d) + registered j d ≡ length d
unfolding registered remove_request
length-remove_request j [] = refl
length-remove_request j ((i, s) ∷ d) = ground (arith, length-remove_request j d)

pub registered_of_request_at :
    (k : ℕ) (d : List (ℕ × ℕ)) (r : ℕ) → request_at k d ≡ some r → 1 ≤ registered k d
unfolding registered request_at
registered_of_request_at k [] r e = absurd (ground arith)
registered_of_request_at k ((i, s) ∷ d) r e = ground (arith, registered_of_request_at k d r)

pub request_at-assign :
    (k j r : ℕ) (d : List (ℕ × ℕ))
    → request_at k (assign j r d) ≡ (if j == k then some r else request_at k d)
unfolding request_at assign
request_at-assign k j r [] = ground arith
request_at-assign k j r ((i, s) ∷ d) = ground (arith, request_at-assign k j r d)
