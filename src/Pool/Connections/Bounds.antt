-- ===== src/Pool/Connections/Bounds.antt =====
-- The number of the connections of a pool of Pool/Connections.antt, and its `open_count`.
use python_driver.Prelude.{
  ℕ, ◌+◌, ◌-◌, ◌≤◌, ◌≡◌, refl, ap, ◌∙◌, ◌⊎◌, inl, inr, Bool, true, false, ◌||◌, leb, leb→le, ltb,
  ◌==◌, List, [], ◌∷◌, if◌then◌else◌, length, length-append, arith, Bool-cases,
}
use python_driver.Prelude.Int.{ℤ, pos, negsuc}
use python_driver.Pool.Connections.{
  HostPool, init, increment, decrease, at_least, exceeds, contains, remove, shutdown, Attempt,
  connected, refused, authentication_failed, other_exception, add_conn, is_added, close_conn,
  replace, return_failed, return_trashed, schedule, maybe_spawn, ensure_core_connections, may_open,
  begin_create, begin_replace, end_create, end_replace, maybe_trash, Event, spawns, ensures_core,
  begins_create, begins_replace, ends_create, ends_replace, returns_failed, returns_trashed,
  trashes, shuts_down, step, run,
}

-- The count is this number, or above it by no more than `k`.
abbrev pub Covers : ℤ → ℕ → ℕ → Type 0
Covers (pos m) t k = (t ≤ m) × (m ≤ t + k)
Covers (negsuc m) t k = 1 ≤ 0

Covers-increment : (z : ℤ) (t k : ℕ) → Covers z t k → Covers (increment z) (t + 1) k
unfolding increment
Covers-increment (pos m) t k h = (omega arith, omega arith)
Covers-increment (negsuc m) t k h = absurd (omega arith)

Covers-decrease : (z : ℤ) (t u k : ℕ) → Covers z t k → u + 1 ≡ t → Covers (decrease z 1) u k
unfolding decrease
Covers-decrease (pos m) t u k h e =
    let l : leb 1 m ≡ true = ground arith in rw l (omega arith, omega arith)
Covers-decrease (negsuc m) t u k h e = absurd (omega arith)

below : (z : ℤ) (t n k : ℕ) → Covers z t k → at_least z n ≡ false → t + 1 ≤ n
unfolding at_least
below (pos m) t n k h e = ground arith
below (negsuc m) t n k h e = absurd (omega arith)

Covers-wider : (z : ℤ) (t u k j : ℕ) → Covers z t k → u ≤ t → t + k ≤ u + j → Covers z u j
Covers-wider (pos m) t u k j h l w = (omega arith, omega arith)
Covers-wider (negsuc m) t u k j h l w = h

length-remove : (c : ℕ) (l : List ℕ) → contains c l ≡ true → length (remove c l) + 1 ≡ length l
unfolding remove contains
length-remove c [] h = absurd (ground arith)
length-remove c (d ∷ l) h = elim (Bool-cases (c == d)) [
  | inl e ↦ rw (remove, e) (omega arith)
  | inr e ↦ rw (remove, e) (omega (arith, length-remove c l (rw (contains, e) at h)))
]

-- The connections that the pool has in use or is opening. A trashed one is not among them, though it is open until
-- nothing is in flight on it.
unfoldable pub total : HostPool → ℕ
total p = length p.connections + p.creating + p.replacing

-- An attempt that ends in an exception that is not handled keeps its place in `open_count`.
abbrev pub unhandled : Attempt → ℕ
unhandled (connected c) = 0
unhandled (refused is_down) = 0
unhandled authentication_failed = 0
unhandled other_exception = 1

abbrev pub unhandled_by : Event → ℕ
unhandled_by (ends_create a) = unhandled a
unhandled_by (ends_replace a) = unhandled a
unhandled_by _ = 0

abbrev pub lost : List Event → ℕ
lost [] = 0
lost (e ∷ es) = unhandled_by e + lost es

-- `k` is how far `open_count` may be above the connections.
pub record IsBounded (max_conns k : ℕ) (p : HostPool) : Type 0 where
  pub capped : total p ≤ max_conns
  pub counted : (p.is_shutdown ≡ true) ⊎ Covers p.open_count (total p) k
  pub scheduled : p.scheduled_for_creation ≡ p.create_tasks + p.creating

module _ (core_conns max_conns k : ℕ) where
  abbrev Inv : HostPool → Type 0
  Inv p = IsBounded max_conns k p

  if-Inv :
      (b : Bool) (p q : HostPool)
      → (b ≡ true → Inv p)
      → (b ≡ false → Inv q)
      → Inv (if b then p else q)
  if-Inv true p q f g = f refl
  if-Inv false p q f g = g refl

  shutdown-Inv : (p : HostPool) → Inv p → Inv (shutdown p)
  unfolding shutdown total
  shutdown-Inv p h =
      if-Inv p.is_shutdown _ _ (λ s. h)
        (λ s. record { capped = h.capped; counted = inl refl; scheduled = h.scheduled })

  -- A place that was taken is given back.
  fewer :
      (p q : HostPool)
      → total q + 1 ≡ total p
      → q.is_shutdown ≡ p.is_shutdown
      → q.open_count ≡ decrease p.open_count 1
      → q.scheduled_for_creation ≡ q.create_tasks + q.creating
      → Inv p
      → Inv q
  unfolding total
  fewer p q t s o c h = record {
    capped = omega (arith, h.capped, t);
    counted = elim h.counted [
      | inl e ↦ inl (s ∙ e)
      | inr e ↦ inr (rw o (Covers-decrease p.open_count (total p) (total q) k e t))
    ];
    scheduled = c;
  }

  -- Connections and a count that are apart by another `j`.
  apart :
      (j : ℕ) (p q : HostPool)
      → total q ≤ total p
      → total p + k ≤ total q + j
      → q.is_shutdown ≡ p.is_shutdown
      → q.open_count ≡ p.open_count
      → q.scheduled_for_creation ≡ q.create_tasks + q.creating
      → Inv p
      → IsBounded max_conns j q
  unfolding total
  apart j p q t w s o c h = record {
    capped = omega (arith, h.capped, t);
    counted = elim h.counted [
      | inl e ↦ inl (s ∙ e)
      | inr e ↦ inr (rw o (Covers-wider p.open_count (total p) (total q) k j e t w))
    ];
    scheduled = c;
  }

  -- As many as before.
  alike :
      (p q : HostPool)
      → total q ≡ total p
      → q.is_shutdown ≡ p.is_shutdown
      → q.open_count ≡ p.open_count
      → q.scheduled_for_creation ≡ q.create_tasks + q.creating
      → Inv p
      → Inv q
  alike p q t s o c h = apart k p q (omega (arith, t)) (omega (arith, t)) s o c h

  pub wider : (j : ℕ) (p : HostPool) → k ≤ j → Inv p → IsBounded max_conns j p
  wider j p l h = apart j p p (omega arith) (omega (arith, l)) refl refl h.scheduled h

  -- A place is taken.
  opens :
      (p q : HostPool)
      → may_open core_conns max_conns p ≡ true
      → total q ≡ total p + 1
      → q.is_shutdown ≡ p.is_shutdown
      → q.open_count ≡ increment p.open_count
      → q.scheduled_for_creation ≡ q.create_tasks + q.creating
      → Inv p
      → Inv q
  unfolding may_open total
  opens p q m t s o c h = elim (Bool-cases p.is_shutdown) [
    | inl d ↦ absurd (let m' : false ≡ true = rw d at m in ground arith)
    | inr d ↦ elim (Bool-cases (at_least p.open_count max_conns)) [
      | inl a ↦ absurd (let m' : false ≡ true = rw (d, a) at m in ground arith)
      | inr a ↦ elim h.counted [
        | inl e ↦ absurd (let e' : false ≡ true = rw d at e in ground arith)
        | inr e ↦ record {
          capped = omega (arith, t, below p.open_count (total p) max_conns k e a);
          counted = inr (rw (o, t) (Covers-increment p.open_count (total p) k e));
          scheduled = c;
        }
      ]
    ]
  ]

  close-Inv : (c : ℕ) (p : HostPool) → Inv p → Inv (close_conn c p)
  unfolding close_conn total
  close-Inv c p h = alike p (close_conn c p) (omega arith) refl refl h.scheduled h

  -- An attempt ends: `q` is the pool without it.
  add_conn-Inv :
      (a : Attempt) (p q : HostPool)
      → total q + 1 ≡ total p
      → q.is_shutdown ≡ p.is_shutdown
      → q.open_count ≡ p.open_count
      → q.scheduled_for_creation ≡ q.create_tasks + q.creating
      → Inv p
      → IsBounded max_conns (k + unhandled a) (add_conn a q)
  unfolding add_conn total
  add_conn-Inv (connected c) p q t s o d h =
      let g = add_conn (connected c) q in
      wider (k + 0) g (omega arith)
        (alike p g (omega (arith, t, length-append q.connections (c ∷ []))) s o d h)
  add_conn-Inv (refused is_down) p q t s o d h =
      let g : HostPool = record q { open_count = decrease q.open_count 1 } in
      let f : Inv g = fewer p g t s (ap (λ (z : ℤ). decrease z 1) o) d h in
      wider (k + 0) _ (omega arith) (if-Inv is_down (shutdown g) g (λ e. shutdown-Inv g f) (λ e. f))
  add_conn-Inv authentication_failed p q t s o d h =
      let g = add_conn authentication_failed q in
      wider (k + 0) g (omega arith) (fewer p g t s (ap (λ (z : ℤ). decrease z 1) o) d h)
  add_conn-Inv other_exception p q t s o d h =
      apart (k + 1) p q (omega (arith, t)) (omega (arith, t)) s o d h

  replace-Inv : (c : ℕ) (p : HostPool) → Inv p → Inv (replace c p)
  unfolding replace total
  replace-Inv c p h =
      if-Inv (contains c p.connections) _ _
        (λ e.
          let q = record p {
            connections = remove c p.connections;
            open_count = decrease p.open_count 1;
            replace_tasks = p.replace_tasks + 1;
          } in
          close-Inv c q
            (fewer p q (omega (arith, length-remove c p.connections e)) refl refl h.scheduled h))
        (λ e. close-Inv c p h)

  return_failed-Inv :
      (c : ℕ) (is_down : Bool) (p : HostPool) → Inv p → Inv (return_failed c is_down p)
  unfolding return_failed total
  return_failed-Inv c is_down p h =
      let q = record p { signaled = c ∷ p.signaled } in
      let k = alike p q (omega arith) refl refl h.scheduled h in
      if-Inv (contains c p.signaled) _ _ (λ e. h)
        (λ e. if-Inv is_down _ _ (λ d. shutdown-Inv q k) (λ d. replace-Inv c q k))

  return_trashed-Inv : (c : ℕ) (idle : Bool) (p : HostPool) → Inv p → Inv (return_trashed c idle p)
  unfolding return_trashed total
  return_trashed-Inv c idle p h =
      let q = record p { trash = remove c p.trash } in
      if-Inv idle _ _ (λ e. close-Inv c q (alike p q (omega arith) refl refl h.scheduled h))
        (λ e. h)

  schedule-Inv : (n : ℕ) (p : HostPool) → Inv p → Inv (schedule core_conns max_conns n p)
  unfolding schedule total
  schedule-Inv n p h =
      alike p (schedule core_conns max_conns n p) (omega arith) refl refl
        (omega (arith, h.scheduled)) h

  maybe_spawn-Inv : (p : HostPool) → Inv p → Inv (maybe_spawn core_conns max_conns p)
  unfolding maybe_spawn
  maybe_spawn-Inv p h =
      if-Inv (leb 1 p.scheduled_for_creation || at_least p.open_count max_conns) _ _ (λ e. h)
        (λ e. schedule-Inv 1 p h)

  ensure-Inv : (p : HostPool) → Inv p → Inv (ensure_core_connections core_conns max_conns p)
  unfolding ensure_core_connections
  ensure-Inv p h =
      if-Inv p.is_shutdown _ _ (λ e. h)
        (λ e. schedule-Inv (core_conns - (length p.connections + p.scheduled_for_creation)) p h)

  begin_create-Inv :
      (p : HostPool) → 1 ≤ p.create_tasks → Inv p → Inv (begin_create core_conns max_conns p)
  unfolding begin_create total
  begin_create-Inv p l h =
      if-Inv (may_open core_conns max_conns p) _ _
        (λ m.
          opens p
            (record p {
              create_tasks = p.create_tasks - 1;
              open_count = increment p.open_count;
              creating = p.creating + 1;
            })
            m (omega arith) refl refl (omega (arith, h.scheduled)) h)
        (λ m.
          alike p
            (record p {
              create_tasks = p.create_tasks - 1;
              scheduled_for_creation = p.scheduled_for_creation - 1;
            })
            (omega arith) refl refl (omega (arith, h.scheduled)) h)

  begin_replace-Inv : (p : HostPool) → Inv p → Inv (begin_replace core_conns max_conns p)
  unfolding begin_replace total
  begin_replace-Inv p h =
      if-Inv (may_open core_conns max_conns p) _ _
        (λ m.
          opens p
            (record p {
              replace_tasks = p.replace_tasks - 1;
              open_count = increment p.open_count;
              replacing = p.replacing + 1;
            })
            m (omega arith) refl refl h.scheduled h)
        (λ m.
          alike p (record p { replace_tasks = p.replace_tasks - 1 }) (omega arith) refl refl
            h.scheduled h)

  end_create-Inv :
      (a : Attempt) (p : HostPool)
      → 1 ≤ p.creating
      → Inv p
      → IsBounded max_conns (k + unhandled a) (end_create core_conns max_conns a p)
  unfolding end_create total
  end_create-Inv a p l h =
      add_conn-Inv a p
        (record p {
          creating = p.creating - 1;
          scheduled_for_creation = p.scheduled_for_creation - 1;
        })
        (omega arith) refl refl (omega (arith, h.scheduled)) h

  maybe_trash-Inv :
      (c : ℕ) (idle : Bool) (p : HostPool) → Inv p → Inv (maybe_trash core_conns max_conns c idle p)
  unfolding maybe_trash total
  maybe_trash-Inv c idle p h =
      if-Inv (contains c p.connections) _ _
        (λ e.
          if-Inv (exceeds p.open_count core_conns) _ _
            (λ x.
              let q = record p {
                open_count = decrease p.open_count 1;
                connections = remove c p.connections;
              } in
              let k =
                fewer p q (omega (arith, length-remove c p.connections e)) refl refl h.scheduled
                  h in
              if-Inv idle _ _ (λ i. close-Inv c q k)
                (λ i.
                  alike q (record q { trash = c ∷ q.trash }) (omega arith) refl refl k.scheduled k))
            (λ x. h))
        (λ e. h)

module _ (core_conns max_conns : ℕ) where
  end_replace-Inv :
      (k : ℕ) (a : Attempt) (p : HostPool)
      → 1 ≤ p.replacing
      → IsBounded max_conns k p
      → IsBounded max_conns (k + unhandled a) (end_replace core_conns max_conns a p)
  unfolding end_replace total
  end_replace-Inv k a p l h =
      let q = add_conn a (record p { replacing = p.replacing - 1 }) in
      let g =
        add_conn-Inv core_conns max_conns k a p (record p { replacing = p.replacing - 1 })
          (omega arith) refl refl h.scheduled h in
      if-Inv core_conns max_conns (k + unhandled a) (is_added a) _ _ (λ e. g)
        (λ e.
          alike core_conns max_conns (k + unhandled a) q
            (record q { replace_tasks = q.replace_tasks + 1 }) refl refl refl g.scheduled g)

  module _ (k : ℕ) where
    -- An event that may not happen, or that leaves the count as far from the connections as it was.
    when :
        (j : ℕ) (b : Bool) (p q : HostPool)
        → IsBounded max_conns k p
        → (b ≡ true → IsBounded max_conns (k + j) q)
        → IsBounded max_conns (k + j) (if b then q else p)
    when j b p q h f =
        if-Inv core_conns max_conns (k + j) b q p f
          (λ e. wider core_conns max_conns k (k + j) p (omega arith) h)

    same : (p : HostPool) → IsBounded max_conns k p → IsBounded max_conns (k + 0) p
    same p h = wider core_conns max_conns k (k + 0) p (omega arith) h

    step-Inv :
        (p : HostPool) (e : Event)
        → IsBounded max_conns k p
        → IsBounded max_conns (k + unhandled_by e) (step core_conns max_conns p e)
    unfolding step
    step-Inv p spawns h = same _ (maybe_spawn-Inv core_conns max_conns k p h)
    step-Inv p ensures_core h = same _ (ensure-Inv core_conns max_conns k p h)
    step-Inv p begins_create h =
        when 0 (leb 1 p.create_tasks) p _ h
          (λ e. same _ (begin_create-Inv core_conns max_conns k p (leb→le 1 p.create_tasks e) h))
    step-Inv p begins_replace h =
        when 0 (leb 1 p.replace_tasks) p _ h
          (λ e. same _ (begin_replace-Inv core_conns max_conns k p h))
    step-Inv p (ends_create a) h =
        when (unhandled a) (leb 1 p.creating) p _ h
          (λ e. end_create-Inv core_conns max_conns k a p (leb→le 1 p.creating e) h)
    step-Inv p (ends_replace a) h =
        when (unhandled a) (leb 1 p.replacing) p _ h
          (λ e. end_replace-Inv k a p (leb→le 1 p.replacing e) h)
    step-Inv p (returns_failed c is_down) h =
        same _ (return_failed-Inv core_conns max_conns k c is_down p h)
    step-Inv p (returns_trashed c idle) h =
        when 0 (contains c p.trash) p _ h
          (λ e. same _ (return_trashed-Inv core_conns max_conns k c idle p h))
    step-Inv p (trashes c idle) h =
        when 0 (ltb core_conns (length p.connections)) p _ h
          (λ e. same _ (maybe_trash-Inv core_conns max_conns k c idle p h))
    step-Inv p shuts_down h = same _ (shutdown-Inv core_conns max_conns k p h)

  run-Inv :
      (k : ℕ) (p : HostPool) (es : List Event)
      → IsBounded max_conns k p
      → IsBounded max_conns (k + lost es) (run core_conns max_conns p es)
  unfolding run
  run-Inv k p [] h = same k p h
  run-Inv k p (e ∷ es) h =
      let j = k + unhandled_by e in
      let q = step core_conns max_conns p e in
      wider core_conns max_conns (j + lost es) (k + (unhandled_by e + lost es))
        (run core_conns max_conns q es) (omega arith) (run-Inv j q es (step-Inv k p e h))

  -- A pool that starts with no more connections than the maximum never has more in use, those that are being
  -- opened included; trashed connections, which may still be open, are not counted. `_scheduled_for_creation`
  -- is the number of the creations that wait or run. And until the pool is shut down, `open_count` is the
  -- number of the connections in use and being opened, and above it by at most one for each attempt
  -- that ended in an exception that is not handled.
  pub at_most_max :
      (conns : List ℕ) (es : List Event)
      → length conns ≤ max_conns
      → (total (run core_conns max_conns (init conns) es) ≤ max_conns)
        × ((run core_conns max_conns (init conns) es).scheduled_for_creation
            ≡ (run core_conns max_conns (init conns) es).create_tasks
              + (run core_conns max_conns (init conns) es).creating)
        × (((run core_conns max_conns (init conns) es).is_shutdown ≡ true)
            ⊎ Covers
                (run core_conns max_conns (init conns) es).open_count
                (total (run core_conns max_conns (init conns) es))
                (lost es))
  unfolding init total
  at_most_max conns es l =
      let start : IsBounded max_conns 0 (init conns) = record {
        capped = omega arith;
        counted = inr (omega arith, omega arith);
        scheduled = omega arith;
      } in
      let h =
        wider core_conns max_conns (0 + lost es) (lost es) _ (omega arith)
          (run-Inv 0 (init conns) es start) in
      (h.capped, h.scheduled, h.counted)
