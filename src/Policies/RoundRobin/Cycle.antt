-- ===== src/Policies/RoundRobin/Cycle.antt =====
-- `islice(cycle(hosts), pos, pos + len(hosts))` of Policies/RoundRobin.antt as a rotation of the list.
use python_driver.Prelude.{
  ℕ, zero, suc, ◌+◌, ◌-◌, ◌%◌, ◌≤◌, ◌<◌, ◌≡◌, refl, Option, none, some, List, [], ◌∷◌, ◌++◌, arith,
  length, get_elem?, take, drop, sym, ◌∙◌, ap, length-drop,
}
use python_driver.Policies.RoundRobin.{cycle_slice, prepend}
use mathlib.Core.Path.{ap₂}
use native.Mathlib.Nat.{mod-eq_of_lt, mod-add-mod, mod-mod, mod_self, mod-lt, zero-mod}

module _ {ℓ} {A : Type ℓ} where
  take-suc-drop :
      (hs : List A) (i n : ℕ)
      → i < length hs
      → take (suc n) (drop i hs) ≡ prepend (get_elem? hs i) (take n (drop (suc i) hs))
  take-suc-drop [] i n h = absurd (omega arith)
  take-suc-drop (y ∷ hs) zero n h = refl
  take-suc-drop (y ∷ hs) (suc i) n h = take-suc-drop hs i n (omega arith)

  -- Before the end of the list the slice is a segment of it.
  cycle_slice_segment :
      (hs : List A) (pos count : ℕ)
      → pos + count ≤ length hs
      → cycle_slice hs pos count ≡ take count (drop pos hs)
  unfolding cycle_slice
  cycle_slice_segment hs pos zero h = refl
  cycle_slice_segment hs pos (suc count) h =
      let at : pos % length hs ≡ pos = mod-eq_of_lt (omega arith) in
      let next : pos + 1 ≡ suc pos = omega arith in
      rw (at, cycle_slice_segment hs (pos + 1) count (omega arith), next)
        (sym (take-suc-drop hs pos count (omega arith)))

  prepend-append : (o : Option A) (xs ys : List A) → prepend o xs ++ ys ≡ prepend o (xs ++ ys)
  prepend-append none xs ys = refl
  prepend-append (some x) xs ys = refl

  cycle_slice-append :
      (hs : List A) (pos a b : ℕ)
      → cycle_slice hs pos (a + b) ≡ cycle_slice hs pos a ++ cycle_slice hs (pos + a) b
  unfolding cycle_slice
  cycle_slice-append hs pos zero b =
      let left : zero + b ≡ b = omega arith in
      let right : pos + zero ≡ pos = omega arith in rw (left, right)
  cycle_slice-append hs pos (suc a) b =
      let left : suc a + b ≡ suc (a + b) = omega arith in
      let right : pos + suc a ≡ pos + 1 + a = omega arith in
      rw (left, right, cycle_slice-append hs (pos + 1) a b, prepend-append)

  -- Only the position modulo the length counts.
  cycle_slice_cong :
      (hs : List A) (p q count : ℕ)
      → p % length hs ≡ q % length hs
      → cycle_slice hs p count ≡ cycle_slice hs q count
  unfolding cycle_slice
  cycle_slice_cong hs p q zero e = refl
  cycle_slice_cong hs p q (suc count) e =
      let next : (p + 1) % length hs ≡ (q + 1) % length hs =
        sym (mod-add-mod p (length hs) 1)
        ∙ ap (λ (m : ℕ). (m + 1) % length hs) e
        ∙ mod-add-mod q (length hs) 1 in
      rw (e, cycle_slice_cong hs (p + 1) (q + 1) count next)

  take-all : (hs : List A) → take (length hs) hs ≡ hs
  take-all [] = refl
  take-all (x ∷ hs) = ap (◌∷◌ x) (take-all hs)

  wrapped :
      (hs : List A) (pos rest : ℕ)
      → rest + pos ≡ length hs
      → cycle_slice hs pos (rest + pos) ≡ drop pos hs ++ take pos hs
  wrapped hs pos rest e =
      let full : rest ≡ length (drop pos hs) = omega (arith, length-drop pos hs) in
      let back : (pos + rest) % length hs ≡ 0 % length hs =
        ap (λ (m : ℕ). m % length hs) (omega arith)
        ∙ mod_self (length hs)
        ∙ sym (zero-mod (length hs)) in
      cycle_slice-append hs pos rest pos
      ∙ ap₂ ◌++◌
          (cycle_slice_segment hs pos rest (omega arith)
            ∙ ap (λ (m : ℕ). take m (drop pos hs)) full
            ∙ take-all (drop pos hs))
          (cycle_slice_cong hs (pos + rest) 0 pos back ∙ cycle_slice_segment hs 0 pos (omega arith))

  -- A whole round from any position is the list, rotated.
  pub cycle_slice_round :
      (hs : List A) (pos : ℕ)
      → pos < length hs
      → cycle_slice hs pos (length hs) ≡ drop pos hs ++ take pos hs
  cycle_slice_round hs pos h =
      let whole : length hs - pos + pos ≡ length hs = omega arith in
      ap (cycle_slice hs pos) (sym whole) ∙ wrapped hs pos (length hs - pos) whole

  pub cycle_slice-mod :
      (hs : List A) (pos count : ℕ)
      → cycle_slice hs (pos % length hs) count ≡ cycle_slice hs pos count
  cycle_slice-mod hs pos count =
      cycle_slice_cong hs (pos % length hs) pos count (mod-mod pos (length hs))

  get_elem?-some : (hs : List A) (i : ℕ) → i < length hs → (x : A) × (get_elem? hs i ≡ some x)
  get_elem?-some [] i h = elim h [ ]
  get_elem?-some (x ∷ hs) zero h = (x, refl)
  get_elem?-some (x ∷ hs) (suc i) h = get_elem?-some hs i (omega arith)

  -- A round starts with the element at its position.
  pub cycle_slice_first :
      (hs : List A) (pos : ℕ)
      → get_elem? (cycle_slice hs pos (length hs)) 0 ≡ get_elem? hs (pos % length hs)
  unfolding cycle_slice
  cycle_slice_first [] pos = refl
  cycle_slice_first (h ∷ hs) pos =
      let (x, e) = get_elem?-some (h ∷ hs) (pos % suc (length hs)) (mod-lt pos (omega arith)) in
      rw e
