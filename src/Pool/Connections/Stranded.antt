-- ===== src/Pool/Connections/Stranded.antt =====
-- Attempts that end in an exception that `_add_conn_if_under_max` does not handle keep their place in
-- `open_count` (Pool/Connections.antt).
use python_driver.Prelude.{
  ℕ, zero, suc, ◌+◌, ◌-◌, ◌≤◌, ◌≡◌, refl, sym, ap, ◌∙◌, Bool, true, false, ◌||◌, leb, ltb, ◌==◌,
  List, [], ◌∷◌, if◌then◌else◌, length, arith,
}
use python_driver.Prelude.Int.{ℤ, pos}
use python_driver.Pool.Connections.{
  HostPool, init, increment, decrease, at_least, contains, remove, shutdown, other_exception,
  add_conn, is_added, close_conn, replace, return_failed, return_trashed, schedule, maybe_spawn,
  ensure_core_connections, may_open, begin_create, begin_replace, end_replace, Event, spawns,
  ensures_core, begins_create, begins_replace, ends_create, ends_replace, returns_failed,
  returns_trashed, trashes, shuts_down, step, run,
}

module _ (core_conns max_conns : ℕ) where
  -- No connection is there or comes.
  pub record IsStuck (p : HostPool) : Type 0 where
    pub none_open : p.connections ≡ []
    pub none_creating : p.creating ≡ 0
    pub none_replacing : p.replacing ≡ 0
    pub full : (p.is_shutdown || at_least p.open_count max_conns) ≡ true

  if-IsStuck :
      (b : Bool) (p q : HostPool)
      → (b ≡ true → IsStuck p)
      → (b ≡ false → IsStuck q)
      → IsStuck (if b then p else q)
  if-IsStuck true p q f g = f refl
  if-IsStuck false p q f g = g refl

  alike :
      (p q : HostPool)
      → q.connections ≡ p.connections
      → q.creating ≡ p.creating
      → q.replacing ≡ p.replacing
      → q.is_shutdown ≡ p.is_shutdown
      → q.open_count ≡ p.open_count
      → IsStuck p
      → IsStuck q
  alike p q c a b s o h = record {
    none_open = c ∙ h.none_open;
    none_creating = a ∙ h.none_creating;
    none_replacing = b ∙ h.none_replacing;
    full =
        ap (λ (x : Bool). x || at_least q.open_count max_conns) s
        ∙ ap (λ (z : ℤ). p.is_shutdown || at_least z max_conns) o
        ∙ h.full;
  }

  shutdown-IsStuck : (p : HostPool) → IsStuck p → IsStuck (shutdown p)
  unfolding shutdown
  shutdown-IsStuck p h =
      if-IsStuck p.is_shutdown _ _ (λ s. h)
        (λ s. record {
          none_open = h.none_open;
          none_creating = h.none_creating;
          none_replacing = h.none_replacing;
          full = refl;
        })

  not_open : (p : HostPool) → IsStuck p → may_open core_conns max_conns p ≡ false
  unfolding may_open
  not_open p h = let f = h.full in simp f refl

  contains-none : (c : ℕ) (l : List ℕ) → l ≡ [] → contains c l ≡ false
  unfolding contains
  contains-none c l e = rw e refl

  replace-IsStuck : (c : ℕ) (p : HostPool) → IsStuck p → IsStuck (replace c p)
  unfolding replace close_conn
  replace-IsStuck c p h =
      if-IsStuck (contains c p.connections) _ _
        (λ e. absurd (let f = sym e ∙ contains-none c p.connections h.none_open in ground arith))
        (λ e. alike p (close_conn c p) refl refl refl refl refl h)

  step-IsStuck : (p : HostPool) (e : Event) → IsStuck p → IsStuck (step core_conns max_conns p e)
  unfolding step maybe_spawn ensure_core_connections schedule begin_create begin_replace
      return_failed return_trashed close_conn
  step-IsStuck p spawns h =
      if-IsStuck (leb 1 p.scheduled_for_creation || at_least p.open_count max_conns) _ _ (λ e. h)
        (λ e. alike p (schedule core_conns max_conns 1 p) refl refl refl refl refl h)
  step-IsStuck p ensures_core h =
      if-IsStuck p.is_shutdown _ _ (λ e. h)
        (λ e.
          alike p
            (schedule core_conns max_conns
              (core_conns - (length p.connections + p.scheduled_for_creation)) p)
            refl refl refl refl refl h)
  step-IsStuck p begins_create h =
      if-IsStuck (leb 1 p.create_tasks) _ _
        (λ e.
          if-IsStuck (may_open core_conns max_conns p) _ _
            (λ m. absurd (let f = sym m ∙ not_open p h in ground arith))
            (λ m.
              alike p
                (record p {
                  create_tasks = p.create_tasks - 1;
                  scheduled_for_creation = p.scheduled_for_creation - 1;
                })
                refl refl refl refl refl h))
        (λ e. h)
  step-IsStuck p begins_replace h =
      if-IsStuck (leb 1 p.replace_tasks) _ _
        (λ e.
          if-IsStuck (may_open core_conns max_conns p) _ _
            (λ m. absurd (let f = sym m ∙ not_open p h in ground arith))
            (λ m.
              alike p (record p { replace_tasks = p.replace_tasks - 1 }) refl refl refl refl refl
                h))
        (λ e. h)
  step-IsStuck p (ends_create a) h =
      if-IsStuck (leb 1 p.creating) _ _ (λ e. absurd (let z = h.none_creating in ground (arith, z)))
        (λ e. h)
  step-IsStuck p (ends_replace a) h =
      if-IsStuck (leb 1 p.replacing) _ _
        (λ e. absurd (let z = h.none_replacing in ground (arith, z))) (λ e. h)
  step-IsStuck p (returns_failed c is_down) h =
      let q = record p { signaled = c ∷ p.signaled } in
      let k = alike p q refl refl refl refl refl h in
      if-IsStuck (contains c p.signaled) _ _ (λ e. h)
        (λ e. if-IsStuck is_down _ _ (λ d. shutdown-IsStuck q k) (λ d. replace-IsStuck c q k))
  step-IsStuck p (returns_trashed c idle) h =
      if-IsStuck (contains c p.trash) _ _
        (λ e.
          if-IsStuck idle _ _
            (λ i.
              alike p (close_conn c (record p { trash = remove c p.trash })) refl refl refl refl
                refl h)
            (λ i. h))
        (λ e. h)
  step-IsStuck p (trashes c idle) h =
      if-IsStuck (ltb core_conns (length p.connections)) _ _
        (λ e. absurd (let z = ap length h.none_open in ground (arith, z))) (λ e. h)
  step-IsStuck p shuts_down h = shutdown-IsStuck p h

  run-IsStuck :
      (p : HostPool) (es : List Event)
      → IsStuck p
      → (run core_conns max_conns p es).connections ≡ []
  unfolding run
  run-IsStuck p [] h = h.none_open
  run-IsStuck p (e ∷ es) h = run-IsStuck (step core_conns max_conns p e) es (step-IsStuck p e h)

  -- A replacement is tried, and raises an exception that is not handled, so often, before these events.
  unfoldable pub failing : ℕ → List Event → List Event
  failing zero es = es
  failing (suc n) es = begins_replace ∷ ends_replace other_exception ∷ failing n es

  -- The pool when `k` attempts have failed.
  abbrev failed : ℕ → ℕ → HostPool
  failed c k = record {
    is_shutdown = false;
    open_count = pos k;
    scheduled_for_creation = 0;
    connections = [];
    trash = [];
    create_tasks = 0;
    replace_tasks = 1;
    creating = 0;
    replacing = 0;
    signaled = c ∷ [];
    opened = [];
  }

  one_failure :
      (c k : ℕ)
      → k + 1 ≤ max_conns
      → step core_conns max_conns
          (step core_conns max_conns (failed c k) begins_replace)
          (ends_replace other_exception)
        ≡ failed c (k + 1)
  unfolding step begin_replace may_open at_least increment end_replace add_conn is_added
  one_failure c k l = let f : leb max_conns k ≡ false = ground arith in rw f

  failures :
      (n c k : ℕ) (es : List Event)
      → k + n ≡ max_conns
      → (run core_conns max_conns (failed c k) (failing n es)).connections ≡ []
  unfolding run failing at_least
  failures zero c k es e = run-IsStuck (failed c k) es (record {
    none_open = refl;
    none_creating = refl;
    none_replacing = refl;
    full = ground arith;
  })
  failures (suc n) c k es e =
      let f = one_failure c k (omega arith) in
      ap (λ (q : HostPool). (run core_conns max_conns q (failing n es)).connections) f
      ∙ failures n c (k + 1) es (omega arith)

  same : (c : ℕ) → (c == c) ≡ true
  same c = ground arith

  contains_self : (c : ℕ) → contains c (c ∷ []) ≡ true
  unfolding contains
  contains_self c = let e = same c in rw (contains, e)

  remove_self : (c : ℕ) → remove c (c ∷ []) ≡ []
  unfolding remove
  remove_self c = let e = same c in rw (remove, e)

  no_signal : (c : ℕ) → contains c [] ≡ false
  unfolding contains
  no_signal c = refl

  first_failure :
      (c : ℕ) → step core_conns max_conns (init (c ∷ [])) (returns_failed c false) ≡ failed c 0
  unfolding init step return_failed replace close_conn decrease
  first_failure c =
      let n = no_signal c in let s = contains_self c in let r = remove_self c in rw (n, s, r)

  -- A pool of one connection that fails, and whose attempts to replace it raise an exception other than
  -- ConnectionException, socket.error and AuthenticationFailed as often as there may be connections, has no connection
  -- again, whatever happens next.
  pub stranded :
      (c : ℕ) (es : List Event)
      → (run core_conns max_conns
          (init (c ∷ []))
          (returns_failed c false ∷ failing max_conns es)).connections
        ≡ []
  unfolding run
  stranded c es =
      ap (λ (q : HostPool). (run core_conns max_conns q (failing max_conns es)).connections)
        (first_failure c)
      ∙ failures max_conns c 0 es (omega arith)
