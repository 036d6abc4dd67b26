-- ===== src/Pool/Replacing.antt =====
-- The replacement of the connection of a pool of Pool.antt.
use python_driver.Prelude.{
  ◌||◌, not, refl, All, ◌↔◌, leb, ◌&&◌, ℕ, ◌+◌, ◌≤◌, ◌≡◌, ◌⊎◌, inl, inr, Bool, true, false, Option,
  none, some, List, [], ◌∷◌, if◌then◌else◌, arith, Bool-cases,
}
use python_driver.Pool.{
  drop_connection, starts_replacing, finish_replace, finishes_replace, Pool, init, contains,
  shutdown, start_replacing, return_broken, begin_replace, end_replace, Event, returns_broken,
  begins_replace, ends_replace, shuts_down, step, run,
}

abbrev pub has_connection : Option ℕ → Bool
has_connection none = false
has_connection (some k) = true

-- How many replacements are on their way.
abbrev pub replacements : Pool → ℕ
replacements p = p.submitted + p.connecting + p.installed

-- At most one replacement is on its way, and `is_replacing` is set meanwhile. Until the shutdown it is set only then.
record IsSingle (p : Pool) : Type 0 where
  pub one : replacements p ≤ 1
  pub replacing : p.is_shutdown ≡ false → p.is_replacing ≡ true → replacements p ≡ 1
  pub idle : p.is_replacing ≡ false → replacements p ≡ 0

shutdown-IsSingle : (p : Pool) → IsSingle p → IsSingle (shutdown p)
unfolding shutdown
shutdown-IsSingle p h = ground arith

drop_connection-IsSingle : (p : Pool) → IsSingle p → IsSingle (drop_connection p)
unfolding drop_connection
drop_connection-IsSingle p h = ground arith

start_replacing-IsSingle : (p : Pool) → IsSingle p → IsSingle (start_replacing p)
unfolding start_replacing
start_replacing-IsSingle p h = ground arith

step-IsSingle : (e : Event) (p : Pool) → IsSingle p → IsSingle (step p e)
unfolding step return_broken begin_replace end_replace finish_replace
step-IsSingle (returns_broken k down) p h =
    let q = if contains k p.signaled then p else record p { signaled = k ∷ p.signaled } in
    ground (arith, shutdown-IsSingle q, drop_connection-IsSingle q)
step-IsSingle starts_replacing p h = start_replacing-IsSingle p h
step-IsSingle begins_replace p h = ground arith
step-IsSingle (ends_replace none) p h = ground arith
step-IsSingle (ends_replace (some k)) p h = ground arith
step-IsSingle finishes_replace p h = ground arith
step-IsSingle shuts_down p h = shutdown-IsSingle p h

run-IsSingle : (es : List Event) (p : Pool) → IsSingle p → IsSingle (run p es)
unfolding run
run-IsSingle [] p h = h
run-IsSingle (e ∷ es) p h = run-IsSingle es (step p e) (step-IsSingle e p h)

init-IsSingle : (k : ℕ) (on_error : Bool) → IsSingle (init k on_error)
unfolding init
init-IsSingle k on_error = ground arith

-- A connection is returned broken between the two last steps of a replacement.
abbrev pub is_early : Event → Pool → Bool
is_early (returns_broken k down) p = leb 1 p.installed
is_early _ p = false

abbrev pub any_early : Pool → List Event → Bool
any_early p [] = false
any_early p (e ∷ es) = is_early e p || any_early (step p e) es

abbrev Served : Pool → Type 0
Served p =
    p.is_shutdown ≡ false
    → p.submitted + p.connecting + p.returning ≡ 0
    → has_connection p.connection ≡ true

-- A connection that is installed is there.
abbrev Fresh : Pool → Type 0
Fresh p = p.is_shutdown ≡ false → 1 ≤ p.installed → has_connection p.connection ≡ true

record IsServed (p : Pool) : Type 0 where
  pub single : IsSingle p
  pub served : Served p
  pub fresh : Fresh p

if-IsServed : (b : Bool) (p q : Pool) → IsServed p → IsServed q → IsServed (if b then p else q)
if-IsServed true p q f g = f
if-IsServed false p q f g = g

shutdown-IsServed : (p : Pool) → IsServed p → IsServed (shutdown p)
unfolding shutdown
shutdown-IsServed p h = record {
  single = shutdown-IsSingle p h.single;
  served = ground (arith, h.served);
  fresh = ground (arith, h.fresh);
}

drop_connection-IsServed :
    (p : Pool) → leb 1 p.installed ≡ false → IsServed p → IsServed (drop_connection p)
unfolding drop_connection
drop_connection-IsServed p calm h = record {
  single = drop_connection-IsSingle p h.single;
  served = λ up none_left. absurd (omega (arith, none_left));
  fresh = λ up there. absurd (ground (arith, calm, there));
}

signaled-IsServed :
    (b : Bool) (k : ℕ) (p : Pool)
    → IsServed p
    → IsServed (if b then p else record p { signaled = k ∷ p.signaled })
signaled-IsServed true k p h = h
signaled-IsServed false k p h = record {
  single = record { one = h.single.one; replacing = h.single.replacing; idle = h.single.idle };
  served = h.served;
  fresh = h.fresh;
}

step-IsServed : (e : Event) (p : Pool) → is_early e p ≡ false → IsServed p → IsServed (step p e)
unfolding step return_broken start_replacing begin_replace end_replace finish_replace
step-IsServed (returns_broken k down) p calm h =
    let known = contains k p.signaled in
    let q : Pool = if known then p else record p { signaled = k ∷ p.signaled } in
    let s = signaled-IsServed known k p h in
    if-IsServed (known && not p.shutdown_on_error) p _ h (
      if-IsServed ((not known && down) || p.shutdown_on_error) (shutdown q) (drop_connection q)
        (shutdown-IsServed q s) (drop_connection-IsServed q (ground (arith, calm)) s))
step-IsServed starts_replacing p calm h = record {
  single = step-IsSingle starts_replacing p h.single;
  served = ground (arith, h.served, h.fresh, h.single.replacing);
  fresh = ground (arith, h.fresh);
}
step-IsServed begins_replace p calm h = record {
  single = step-IsSingle begins_replace p h.single;
  served = ground (arith, h.served);
  fresh = ground (arith, h.fresh);
}
step-IsServed (ends_replace none) p calm h = record {
  single = step-IsSingle (ends_replace none) p h.single;
  served = ground (arith, h.served);
  fresh = ground (arith, h.fresh);
}
step-IsServed (ends_replace (some k)) p calm h = record {
  single = step-IsSingle (ends_replace (some k)) p h.single;
  served = ground (arith, h.served);
  fresh = ground (arith, h.fresh);
}
step-IsServed finishes_replace p calm h = record {
  single = step-IsSingle finishes_replace p h.single;
  served = ground (arith, h.served, h.fresh);
  fresh = ground (arith, h.fresh);
}
step-IsServed shuts_down p calm h = shutdown-IsServed p h

run-IsServed :
    (es : List Event) (p : Pool) → any_early p es ≡ false → IsServed p → IsServed (run p es)
unfolding run
run-IsServed [] p calm h = h
run-IsServed (e ∷ es) p calm h = elim (Bool-cases (is_early e p)) [
  | inl early ↦ absurd (let c : true ≡ false = rw early at calm in ground arith)
  | inr first ↦
      let rest : any_early (step p e) es ≡ false = rw first at calm in
      run-IsServed es (step p e) rest (step-IsServed e p first h)
]

init-IsServed : (k : ℕ) (on_error : Bool) → IsServed (init k on_error)
unfolding init
init-IsServed k on_error = record {
  single = unfold init in init-IsSingle k on_error;
  served = λ u n. refl;
  fresh = λ u n. refl;
}

single_replacing : (p : Pool) → IsSingle p → replacements p ≡ 1 → p.is_replacing ≡ true
single_replacing p h e = elim (Bool-cases p.is_replacing) [
  | inl busy ↦ busy
  | inr idle ↦ absurd (omega (arith, e, h.idle idle))
]

has_or_gets :
    (p : Pool)
    → IsServed p
    → p.is_shutdown ≡ false
    → (has_connection p.connection ≡ true) ⊎ (1 ≤ p.submitted + p.connecting + p.returning)
has_or_gets p h up = elim (Bool-cases (leb 1 (p.submitted + p.connecting + p.returning))) [
  | inl busy ↦ inr (ground arith)
  | inr idle ↦ inl (h.served up (ground arith))
]

-- Whatever connections break and are returned, whatever the cluster answers and however often the factory
-- raises, there is never more than one replacement on its way. And until the pool is shut down,
-- `_is_replacing` is set exactly while one is; and the pool has a connection, or a replacement that is
-- submitted or connecting, or a returned connection that waits for the lock to submit one, unless a connection was once returned broken between the assignment of
-- `_connection` and the reset of `_is_replacing`.
pub served_until_shutdown :
    (k : ℕ) (on_error : Bool) (es : List Event)
    → (replacements (run (init k on_error) es) ≤ 1)
      × (((run (init k on_error) es).is_shutdown ≡ true)
          ⊎ ((((run (init k on_error) es).is_replacing ≡ true)
                ↔ (replacements (run (init k on_error) es) ≡ 1))
              × ((any_early (init k on_error) es ≡ true)
                  ⊎ (has_connection (run (init k on_error) es).connection ≡ true)
                  ⊎ (1
                      ≤ (run (init k on_error) es).submitted
                        + (run (init k on_error) es).connecting
                        + (run (init k on_error) es).returning))))
served_until_shutdown k on_error es =
    let p = run (init k on_error) es in
    let h = run-IsSingle es (init k on_error) (init-IsSingle k on_error) in
    (
      h.one,
      (elim (Bool-cases p.is_shutdown) [
        | inl down ↦ inl down
        | inr up ↦ inr (
          (h.replacing up, single_replacing p h),
          (elim (Bool-cases (any_early (init k on_error) es)) [
            | inl early ↦ inl early
            | inr calm ↦
                let s = run-IsServed es (init k on_error) calm (init-IsServed k on_error) in
                inr (has_or_gets p s up)
          ]),
        )
      ]),
    )

-- There is no connection and no replacement on its way, and each of these connections was returned broken before.
record IsStranded (returned : List ℕ) (p : Pool) : Type 0 where
  pub no_connection : p.connection ≡ none
  pub no_replacement : replacements p ≡ 0
  pub no_return : p.returning ≡ 0
  pub only_signals : p.shutdown_on_error ≡ false
  pub known : p.signaled ≡ returned

-- What is returned broken is one of these connections.
abbrev pub ReturnsOnly : List ℕ → Event → Type 0
ReturnsOnly returned (returns_broken k down) = contains k returned ≡ true
ReturnsOnly returned _ = Unit

return_known :
    (p : Pool) (k : ℕ) (down : Bool)
    → contains k p.signaled ≡ true
    → p.shutdown_on_error ≡ false
    → return_broken p k down ≡ p
unfolding return_broken
return_known p k down known alone = ground arith

step-IsStranded :
    (returned : List ℕ) (e : Event) (p : Pool)
    → ReturnsOnly returned e
    → IsStranded returned p
    → IsStranded returned (step p e)
unfolding step start_replacing begin_replace end_replace finish_replace shutdown
step-IsStranded returned (returns_broken k down) p o h =
    let known : contains k p.signaled ≡ true = rw h.known o in
    rw (return_known p k down known h.only_signals) h
step-IsStranded returned starts_replacing p o h = ground (arith, h.no_return)
step-IsStranded returned begins_replace p o h = ground (arith, h.no_replacement)
step-IsStranded returned (ends_replace none) p o h = ground (arith, h.no_replacement)
step-IsStranded returned (ends_replace (some k)) p o h = ground (arith, h.no_replacement)
step-IsStranded returned finishes_replace p o h = ground (arith, h.no_replacement)
step-IsStranded returned shuts_down p o h = ground (arith, h.no_replacement)

run-IsStranded :
    (returned : List ℕ) (es : List Event) (p : Pool)
    → All (ReturnsOnly returned) es
    → IsStranded returned p
    → IsStranded returned (run p es)
unfolding run
run-IsStranded returned [] p o h = h
run-IsStranded returned (e ∷ es) p o h =
    run-IsStranded returned es (step p e) o.1 (step-IsStranded returned e p o.0 h)

-- When the new connection breaks and is returned for the first time, up to the lock, after it is set and before
-- `_is_replacing` is reset, the pool is left without a connection and without a replacement on its way, and it stays so whatever
-- happens, as long as no other connection is returned broken for the first time.
pub stranded_between :
    (p : Pool) (k : ℕ) (es : List Event)
    → p.shutdown_on_error ≡ false
    → p.is_replacing ≡ true
    → p.submitted + p.connecting ≡ 0
    → p.installed ≡ 1
    → p.returning ≡ 0
    → contains k p.signaled ≡ false
    → All (ReturnsOnly (k ∷ p.signaled)) es
    → ((run p (returns_broken k false ∷ starts_replacing ∷ finishes_replace ∷ es)).connection
        ≡ none)
      × (replacements (run p (returns_broken k false ∷ starts_replacing ∷ finishes_replace ∷ es))
          ≡ 0)
unfolding run
stranded_between p k es alone busy waiting last quiet new o =
    let q = step (step (step p (returns_broken k false)) starts_replacing) finishes_replace in
    let start : IsStranded (k ∷ p.signaled) q =
      (unfold step return_broken drop_connection start_replacing finish_replace in ground arith) in
    let h = run-IsStranded (k ∷ p.signaled) es q o start in (h.no_connection, h.no_replacement)

-- The pool is shut down and the connection is still open.
record IsLeaked (k : ℕ) (p : Pool) : Type 0 where
  pub down : p.is_shutdown ≡ true
  pub open_still : contains k p.opened ≡ true

step-IsLeaked : (k : ℕ) (e : Event) (p : Pool) → IsLeaked k p → IsLeaked k (step p e)
unfolding drop_connection step return_broken begin_replace end_replace finish_replace shutdown
    start_replacing contains
step-IsLeaked k (returns_broken j down) p h = ground arith
step-IsLeaked k starts_replacing p h = ground arith
step-IsLeaked k begins_replace p h = ground arith
step-IsLeaked k (ends_replace none) p h = ground arith
step-IsLeaked k (ends_replace (some j)) p h = ground arith
step-IsLeaked k finishes_replace p h = ground arith
step-IsLeaked k shuts_down p h = ground arith

run-IsLeaked : (k : ℕ) (es : List Event) (p : Pool) → IsLeaked k p → IsLeaked k (run p es)
unfolding run
run-IsLeaked k [] p h = h
run-IsLeaked k (e ∷ es) p h = run-IsLeaked k es (step p e) (step-IsLeaked k e p h)

-- When a pool is shut down while a replacement is connecting, the connection that the factory then gives
-- is installed in the pool, and whatever happens the pool never closes it.
pub leaked_after_shutdown :
    (p : Pool) (k : ℕ) (es : List Event)
    → p.is_shutdown ≡ true
    → 1 ≤ p.connecting
    → ((step p (ends_replace (some k))).connection ≡ some k)
      × (contains k (run (step p (ends_replace (some k))) es).opened ≡ true)
unfolding step end_replace contains
leaked_after_shutdown p k es down busy =
    let q = step p (ends_replace (some k)) in
    (
      ground arith,
      (run-IsLeaked k es q (record { down = ground arith; open_still = ground arith })).open_still,
    )
