-- ===== src/Metadata/Replicas.antt =====
-- The replicas that `SimpleStrategy` gives to a token (Metadata.antt).
use python_driver.Prelude.{
  ℕ, zero, suc, ◌+◌, ◌%◌, ◌≤◌, ◌<◌, ◌≡◌, refl, ◌⊎◌, inl, inr, true, ltb, ◌==◌, Option, none, some,
  List, [], ◌∷◌, ◌++◌, if◌then◌else◌, arith, length, get_elem?, length-append, Bool-cases,
}
use python_driver.Metadata.{contains, add_owner, collect}

-- How often a host stands in a list.
abbrev pub occurs : ℕ → List ℕ → ℕ
occurs h [] = 0
occurs h (g ∷ hosts) = (if g == h then 1 else 0) + occurs h hosts

occurs-append : (h : ℕ) (xs ys : List ℕ) → occurs h (xs ++ ys) ≡ occurs h xs + occurs h ys
occurs-append h [] ys = omega arith
occurs-append h (x ∷ xs) ys = ground (arith, occurs-append h xs ys)

contains-occurs :
    (h : ℕ) (hosts : List ℕ) → occurs h hosts ≡ (if contains h hosts then occurs h hosts else 0)
unfolding contains
contains-occurs h [] = refl
contains-occurs h (g ∷ hosts) = ground (arith, contains-occurs h hosts)

contains-append :
    (h g : ℕ) (hosts : List ℕ)
    → contains h (hosts ++ g ∷ []) ≡ (if contains h hosts then true else (g == h))
unfolding contains
contains-append h g [] = ground arith
contains-append h g (x ∷ hosts) = ground (arith, contains-append h g hosts)

module _ {T : Type 0} where
  module _ (owner : T → ℕ) (h : ℕ) where
    occurs-add_owner :
        (o : Option T) (hosts : List ℕ)
        → occurs h hosts ≤ 1
        → occurs h (add_owner owner o hosts) ≤ 1
    unfolding add_owner
    occurs-add_owner none hosts le = le
    occurs-add_owner (some t) hosts le =
        ground (arith, contains-occurs h hosts, occurs-append h hosts (owner t ∷ []))

    contains-add_owner :
        (o : Option T) (hosts : List ℕ)
        → contains h hosts ≡ true
        → contains h (add_owner owner o hosts) ≡ true
    unfolding add_owner
    contains-add_owner none hosts e = e
    contains-add_owner (some t) hosts e = ground (arith, contains-append h (owner t) hosts)

  length-add_owner :
      (owner : T → ℕ) (o : Option T) (hosts : List ℕ)
      → length (add_owner owner o hosts) ≤ length hosts + 1
  unfolding add_owner
  length-add_owner owner none hosts = omega arith
  length-add_owner owner (some t) hosts = ground (arith, length-append hosts (owner t ∷ []))

  added :
      (owner : T → ℕ) (t : T) (hosts : List ℕ)
      → contains (owner t) (add_owner owner (some t) hosts) ≡ true
  unfolding add_owner
  added owner t hosts = ground (arith, contains-append (owner t) (owner t) hosts)

  first-add_owner :
      (owner : T → ℕ) (o : Option T) (h : ℕ) (hosts : List ℕ)
      → (rest : List ℕ) × (add_owner owner o (h ∷ hosts) ≡ h ∷ rest)
  unfolding add_owner
  first-add_owner owner none h hosts = (hosts, refl)
  first-add_owner owner (some t) h hosts = elim (Bool-cases (contains (owner t) (h ∷ hosts))) [
    | inl e ↦ (hosts, rw e)
    | inr e ↦ (hosts ++ owner t ∷ [], rw e)
  ]

  module _ (owner : T → ℕ) (rf : ℕ) (ring : List T) (i : ℕ) where
    pub occurs-collect :
        (h j left : ℕ) (hosts : List ℕ)
        → occurs h hosts ≤ 1
        → occurs h (collect owner rf ring i j left hosts) ≤ 1
    unfolding collect
    occurs-collect h j zero hosts le = le
    occurs-collect h j (suc left) hosts le =
        let t = get_elem? ring ((i + j) % length ring) in
        ground (
          arith,
          occurs-collect h (j + 1) left (add_owner owner t hosts),
          occurs-add_owner owner h t hosts,
        )

    pub length-collect :
        (j left : ℕ) (hosts : List ℕ)
        → length hosts ≤ rf
        → length (collect owner rf ring i j left hosts) ≤ rf
    unfolding collect
    length-collect j zero hosts le = le
    length-collect j (suc left) hosts le =
        let t = get_elem? ring ((i + j) % length ring) in
        ground (
          arith,
          length-collect (j + 1) left (add_owner owner t hosts),
          length-add_owner owner t hosts,
        )

    contains-collect :
        (h j left : ℕ) (hosts : List ℕ)
        → contains h hosts ≡ true
        → contains h (collect owner rf ring i j left hosts) ≡ true
    unfolding collect
    contains-collect h j zero hosts e = e
    contains-collect h j (suc left) hosts e =
        let t = get_elem? ring ((i + j) % length ring) in
        ground (
          arith,
          contains-collect h (j + 1) left (add_owner owner t hosts),
          contains-add_owner owner h t hosts,
        )

    pub first-collect :
        (j left h : ℕ) (hosts : List ℕ)
        → (rest : List ℕ) × (collect owner rf ring i j left (h ∷ hosts) ≡ h ∷ rest)
    unfolding collect
    first-collect j zero h hosts = (hosts, refl)
    first-collect j (suc left) h hosts = elim (Bool-cases (ltb (length (h ∷ hosts)) rf)) [
      | inl e ↦
          let (rest, f) = first-add_owner owner (get_elem? ring ((i + j) % length ring)) h hosts in
          let (more, g) = first-collect (j + 1) left h rest in (more, rw (e, f, g))
      | inr e ↦ (hosts, rw e)
    ]

    -- A token that the loop reaches has its owner among the hosts, unless there are enough.
    pub reached :
        (j left m : ℕ) (hosts : List ℕ) (t : T)
        → m < left
        → get_elem? ring ((i + (j + m)) % length ring) ≡ some t
        → (rf ≤ length (collect owner rf ring i j left hosts))
          ⊎ (contains (owner t) (collect owner rf ring i j left hosts) ≡ true)
    unfolding collect
    reached j zero m hosts t lt e = absurd (omega arith)
    reached j (suc left) zero hosts t lt e = elim (Bool-cases (ltb (length hosts) rf)) [
      | inr full ↦ inl (rw full (ground arith))
      | inl more ↦
          let same : i + (j + zero) ≡ i + j = omega arith in
          let here : get_elem? ring ((i + j) % length ring) ≡ some t = rw (← same) e in
          inr (
            rw (more, here)
              (contains-collect (owner t) (j + 1) left (add_owner owner (some t) hosts)
                (added owner t hosts)))
    ]
    reached j (suc left) (suc n) hosts t lt e = elim (Bool-cases (ltb (length hosts) rf)) [
      | inr full ↦ inl (rw full (ground arith))
      | inl more ↦
          let same : j + suc n ≡ j + 1 + n = omega arith in
          let e' : get_elem? ring ((i + (j + 1 + n)) % length ring) ≡ some t = rw (← same) e in
          rw more (
            reached (j + 1) left n (add_owner owner (get_elem? ring ((i + j) % length ring)) hosts)
              t (omega arith) e')
    ]
