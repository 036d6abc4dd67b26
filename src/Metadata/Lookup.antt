-- ===== src/Metadata/Lookup.antt =====
-- Looking a token up in the replica map of `SimpleStrategy` (Metadata.antt).
use python_driver.Prelude.{
  ℕ, zero, suc, ◌+◌, ◌-◌, ◌*◌, ◌%◌, ◌≤◌, ◌<◌, ◌≡◌, refl, sym, ◌∙◌, ap, ◌↔◌, ◌⊎◌, inl, inr, true,
  false, ltb, leb, ◌==◌, Option, none, some, List, [], ◌∷◌, if◌then◌else◌, arith, length, get_elem?,
  take, All, lt→ltb, Bool-cases,
}
use native.Mathlib.Nat.{mod-eq_of_lt, add-mul-mod_self_left}
use python_driver.Metadata.{
  Tokens, ReplicaMap, bisect_right, replicas_at, put_replicas, contains, add_owner, collect,
  hosts_from, fill, make_simple_map, replicas_of, answer_from,
}
use python_driver.Metadata.Replicas.{occurs, occurs-collect, length-collect, first-collect, reached}

some_inj : {T : Type 0} {a b : T} → some a ≡ some b → a ≡ b
some_inj {a = a} e = ap (λ (o : Option _). elim o [ none ↦ a | some c ↦ c ]) e

length-get_elem? {ℓ} :
    {T : Type ℓ} (ring : List T) (i : ℕ) (b : T) → get_elem? ring i ≡ some b → i < length ring
length-get_elem? [] i b e = absurd (ground arith)
length-get_elem? (x ∷ ring) zero b e = omega arith
length-get_elem? (x ∷ ring) (suc i) b e = omega (arith, length-get_elem? ring i b e)

-- What a token class promises of `==` and `<`.
pub record IsOrder {T : Type 0} (o : Tokens T) : Type 0 where
  pub eq_iff : (a b : T) → (o.eq a b ≡ true) ↔ (a ≡ b)
  pub lt_irrefl : (a : T) → o.lt a a ≡ false

module _ {T : Type 0} (o : Tokens T) where
  -- A ring in ascending order, no token twice.
  abbrev pub Sorted : List T → Type 0
  Sorted [] = Unit
  Sorted (x ∷ xs) = All (λ y. o.lt x y ≡ true) xs × Sorted xs

  -- The token at the index `i` owns `t`: it is the first one above `t`, or the first of the ring when
  -- none is above.
  abbrev pub Owns : List T → T → ℕ → Type 0
  Owns ring t i =
      (All (λ y. o.lt t y ≡ false) (take i ring)
        × ((b : T) × (get_elem? ring i ≡ some b) × (o.lt t b ≡ true)))
      ⊎ (All (λ y. o.lt t y ≡ false) ring × (i ≡ 0))

  bisect_right_above :
      (ring : List T) (t b : T) (i : ℕ)
      → All (λ y. o.lt t y ≡ false) (take i ring)
      → get_elem? ring i ≡ some b
      → o.lt t b ≡ true
      → bisect_right o ring t ≡ i
  unfolding bisect_right
  bisect_right_above [] t b i h e l = absurd (ground arith)
  bisect_right_above (x ∷ ring) t b zero h e l = ground arith
  bisect_right_above (x ∷ ring) t b (suc i) h e l =
      ground (arith, bisect_right_above ring t b i h.1 e l)

  bisect_right_end :
      (ring : List T) (t : T)
      → All (λ y. o.lt t y ≡ false) ring
      → bisect_right o ring t ≡ length ring
  unfolding bisect_right
  bisect_right_end [] t h = refl
  bisect_right_end (x ∷ ring) t h = ground (arith, bisect_right_end ring t h.1)

  owned_index :
      (ring : List T) (t : T) (i : ℕ) (b : T)
      → get_elem? ring i ≡ some b
      → Owns ring t i
      → (if bisect_right o ring t == length ring then 0 else bisect_right o ring t) ≡ i
  owned_index ring t i b e (inl (h, (c, f, l))) =
      ground (arith, bisect_right_above ring t c i h f l, length-get_elem? ring i b e)
  owned_index ring t i b e (inr (h, z)) = ground (arith, bisect_right_end ring t h)

  module _ (laws : IsOrder o) where
    replicas_at-put :
        (a b : T) (hosts : List ℕ) (d : ReplicaMap T)
        → replicas_at o b (put_replicas o a hosts d)
          ≡ (if o.eq a b then some hosts else replicas_at o b d)
    unfolding replicas_at put_replicas
    replicas_at-put a b hosts [] = refl
    replicas_at-put a b hosts ((s, old) ∷ d) =
        ground
          (arith, replicas_at-put a b hosts d, laws.eq_iff s a, laws.eq_iff s b, laws.eq_iff a b)

    unequal : (a b : T) → o.lt a b ≡ true → o.eq b a ≡ false
    unequal a b l = elim (Bool-cases (o.eq b a)) [
      | inr e ↦ e
      | inl e ↦ absurd (ground (arith, (laws.eq_iff b a).0 e, laws.lt_irrefl a))
    ]

    module _ (owner : T → ℕ) (rf : ℕ) (ring : List T) where
      fill_below :
          (i : ℕ) (ts : List T) (b : T) (d : ReplicaMap T)
          → All (λ y. o.lt b y ≡ true) ts
          → replicas_at o b (fill o owner rf ring i ts d) ≡ replicas_at o b d
      unfolding fill
      fill_below i [] b d h = refl
      fill_below i (t ∷ ts) b d h =
          fill_below (i + 1) ts b (put_replicas o t (hosts_from owner rf ring i) d) h.1
          ∙ replicas_at-put t b (hosts_from owner rf ring i) d
          ∙ (rw (unequal b t h.0))

      fill_at :
          (i : ℕ) (ts : List T) (k : ℕ) (b : T) (d : ReplicaMap T)
          → Sorted ts
          → get_elem? ts k ≡ some b
          → replicas_at o b (fill o owner rf ring i ts d) ≡ some (hosts_from owner rf ring (i + k))
      unfolding fill
      fill_at i [] k b d s e = absurd (ground arith)
      fill_at i (t ∷ ts) zero b d s e =
          let same : i + zero ≡ i = omega arith in
          let at : t ≡ b = some_inj e in
          let found : replicas_at o t
                (fill o owner rf ring (i + 1) ts (put_replicas o t (hosts_from owner rf ring i) d))
              ≡ some (hosts_from owner rf ring i) =
            fill_below (i + 1) ts t (put_replicas o t (hosts_from owner rf ring i) d) s.0
            ∙ replicas_at-put t t (hosts_from owner rf ring i) d
            ∙ (rw ((laws.eq_iff t t).1 refl)) in
          rw (same, ← at) found
      fill_at i (t ∷ ts) (suc k) b d s e =
          let same : i + suc k ≡ i + 1 + k = omega arith in
          rw same (fill_at (i + 1) ts k b (put_replicas o t (hosts_from owner rf ring i) d) s.1 e)

      fill_nonempty :
          (i : ℕ) (ts : List T) (x : T × List ℕ) (d : ReplicaMap T)
          → (y : T × List ℕ) × ((r : ReplicaMap T) × (fill o owner rf ring i ts (x ∷ d) ≡ y ∷ r))
      unfolding fill put_replicas
      fill_nonempty i [] x d = (x, (d, refl))
      fill_nonempty i (t ∷ ts) (s, hosts) d = elim (Bool-cases (o.eq s t)) [
        | inl e ↦ rw e (fill_nonempty (i + 1) ts (s, hosts_from owner rf ring i) d)
        | inr e ↦
            rw e (
              fill_nonempty (i + 1) ts (s, hosts) (put_replicas o t (hosts_from owner rf ring i) d))
      ]

      fill_ring :
          (ts : List T) (k : ℕ) (b : T)
          → get_elem? ts k ≡ some b
          → (y : T × List ℕ) × ((r : ReplicaMap T) × (fill o owner rf ring 0 ts [] ≡ y ∷ r))
      unfolding fill put_replicas
      fill_ring [] k b e = absurd (ground arith)
      fill_ring (t ∷ ts) k b e = fill_nonempty 1 ts (t, hosts_from owner rf ring 0) []

      -- `get_replicas` gives the hosts that the strategy collected from the index of the owner.
      pub answer_from-simple :
          (t : T) (i : ℕ) (b : T)
          → Sorted ring
          → get_elem? ring i ≡ some b
          → Owns ring t i
          → answer_from o ring t (some (make_simple_map o rf owner ring))
            ≡ some (hosts_from owner rf ring i)
      unfolding make_simple_map answer_from replicas_of
      answer_from-simple t i b s e w =
          let (y, (r, f)) = fill_ring ring i b e in
          let found : replicas_at o b (y ∷ r) ≡ some (hosts_from owner rf ring i) =
            ap (replicas_at o b) (sym f)
            ∙ fill_at 0 ring i b [] s e
            ∙ ap (λ (n : ℕ). some (hosts_from owner rf ring n)) (omega arith) in
          rw f (
            ap (λ (n : ℕ). replicas_of o (y ∷ r) (get_elem? ring n)) (owned_index ring t i b e w)
            ∙ ap (replicas_of o (y ∷ r)) e
            ∙ found)

module _ {T : Type 0} (owner : T → ℕ) (rf : ℕ) (ring : List T) (i : ℕ) (b : T)
    (e : get_elem? ring i ≡ some b) where
  around : (k : ℕ) → k < length ring → (m : ℕ) × ((m < length ring) × ((i + m) % length ring ≡ k))
  around k lt = elim (Bool-cases (ltb k i)) [
    | inl before ↦
        let lt' : k < i = ground arith in
        let all : i + (k + length ring - i) ≡ k + length ring * 1 =
          omega (arith, length-get_elem? ring i b e) in
        (
          k + length ring - i,
          (
            omega (arith, length-get_elem? ring i b e),
            rw all (add-mul-mod_self_left k (length ring) 1 ∙ mod-eq_of_lt lt),
          ),
        )
    | inr after ↦
        let le : i ≤ k = ground arith in
        let all : i + (k - i) ≡ k = omega arith in (k - i, (omega arith, rw all (mod-eq_of_lt lt)))
  ]

  hosts_reach :
      (k : ℕ) (t : T)
      → get_elem? ring k ≡ some t
      → (rf ≤ length (hosts_from owner rf ring i))
        ⊎ (contains (owner t) (hosts_from owner rf ring i) ≡ true)
  unfolding hosts_from
  hosts_reach k t f =
      let (m, (lt, at)) = around k (length-get_elem? ring k t f) in
      let shifted : i + (0 + m) ≡ i + m = omega arith in
      reached owner rf ring i 0 (length ring) m [] t lt (rw (shifted, at) f)

  collect_first :
      (n : ℕ) → 1 ≤ rf → get_elem? (collect owner rf ring i 0 (suc n) []) 0 ≡ some (owner b)
  unfolding collect add_owner contains
  collect_first n pos =
      let start : i + 0 ≡ i = omega arith in
      let at : (i + 0) % length ring ≡ i = rw start (mod-eq_of_lt (length-get_elem? ring i b e)) in
      let here : get_elem? ring ((i + 0) % length ring) ≡ some b = rw at e in
      let (rest, f) = first-collect owner rf ring i 1 n (owner b) [] in
      rw (lt→ltb 0 rf (omega arith), here) (ap (λ (hosts : List ℕ). get_elem? hosts 0) f)

  hosts_first : 1 ≤ rf → get_elem? (hosts_from owner rf ring i) 0 ≡ some (owner b)
  unfolding hosts_from
  hosts_first pos =
      let full : length ring ≡ suc (length ring - 1) = omega (arith, length-get_elem? ring i b e) in
      ap (λ (n : ℕ). get_elem? (collect owner rf ring i 0 n []) 0) full
      ∙ collect_first (length ring - 1) pos

  All-of_index :
      {P : T → Type 0} (xs : List T) → ((k : ℕ) (t : T) → get_elem? xs k ≡ some t → P t) → All P xs
  All-of_index [] h = tt
  All-of_index (x ∷ xs) h = (h 0 x refl, All-of_index xs (λ k. h (suc k)))

-- In a sorted ring, when `b` at the index `i` owns the token `t`, `get_replicas` of a keyspace with
-- SimpleStrategy answers with hosts, none of them twice and at most `replication_factor` of them: that
-- many, or else every owner of a token. The first is the owner of `b`.
pub answer_from-make_simple_map :
    {T : Type 0} (o : Tokens T)
    → IsOrder o
    → (owner : T → ℕ) (replication_factor : ℕ) (ring : List T) → Sorted o ring
    → (t : T) (i : ℕ) (b : T) → get_elem? ring i ≡ some b
    → Owns o ring t i
    → (hosts : List ℕ) × (answer_from o ring t
          (some (make_simple_map o replication_factor owner ring))
        ≡ some hosts)
      × ((h : ℕ) → occurs h hosts ≤ 1)
      × (length hosts ≤ replication_factor)
      × ((length hosts ≡ replication_factor) ⊎ All (λ y. contains (owner y) hosts ≡ true) ring)
      × ((replication_factor ≡ 0) ⊎ (get_elem? hosts 0 ≡ some (owner b)))
answer_from-make_simple_map o laws owner rf ring s t i b e w = (
  hosts_from owner rf ring i,
  answer_from-simple o laws owner rf ring t i b s e w,
  (λ h. unfold hosts_from in occurs-collect owner rf ring i h 0 (length ring) [] (omega arith)),
  most,
  (elim (Bool-cases (leb rf (length (hosts_from owner rf ring i)))) [
    | inl full ↦ inl (ground (arith, most))
    | inr few ↦ inr (
        All-of_index owner rf ring i b e ring (λ k y f.
          elim (hosts_reach owner rf ring i b e k y f) [
            | inl le ↦ absurd (ground arith)
            | inr c ↦ c
          ]))
  ]),
  (elim (Bool-cases (leb 1 rf)) [
    | inl pos ↦ inr (hosts_first owner rf ring i b e (ground arith))
    | inr z ↦ inl (ground arith)
  ]),
)
  where
    most : length (hosts_from owner rf ring i) ≤ rf
    most = unfold hosts_from in length-collect owner rf ring i 0 (length ring) [] (omega arith)
