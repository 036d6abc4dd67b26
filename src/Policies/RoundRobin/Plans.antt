-- ===== src/Policies/RoundRobin/Plans.antt =====
-- What the query plans of Policies/RoundRobin.antt hold: which hosts, how often, and in which turn.
use python_driver.Prelude.{
  ℕ, zero, suc, ◌%◌, ◌≤◌, ◌≡◌, refl, Bool, not, ◌&&◌, ◌||◌, List, [], ◌∷◌, ◌++◌, arith, length,
  get_elem?, take, drop, sym, ◌∙◌, ap, ltb, if◌then◌else◌, take-append-drop, lt→ltb,
}
use python_driver.Policies.Hosts.{Host, host_eq, contains, occurs}
use python_driver.Policies.Hosts.Sets.{
  IsDistinct, occurs-append, contains-occurs, contains-union, contains-difference, union-IsDistinct,
  difference-IsDistinct, contains-frozenset, frozenset-IsDistinct,
}
use python_driver.Policies.RoundRobin.{
  RoundRobin, HostEvent, up, down, add, remove, notify, notify_all, populate, make_query_plan,
  cycle_slice, prepend,
}
use python_driver.Policies.RoundRobin.Cycle.{cycle_slice_round, cycle_slice_first, cycle_slice-mod}
use native.Mathlib.Nat.{mod-lt}

-- Iterating over a frozenset yields each of its elements once, in some order.
pub record IsIteration (iteration : List Host → List Host) : Type 0 where
  pub same_hosts : (hs : List Host) (j : Host) → occurs j (iteration hs) ≡ occurs j hs
  pub same_length : (hs : List Host) → length (iteration hs) ≡ length hs

occurs-rotate :
    (j : Host) (hs : List Host) (n : ℕ) → occurs j (drop n hs ++ take n hs) ≡ occurs j hs
occurs-rotate j hs n = omega (
  arith,
  occurs-append j (drop n hs) (take n hs),
  occurs-append j (take n hs) (drop n hs),
  ap (occurs j) (take-append-drop n hs),
)

pub occurs-round :
    (j : Host) (hs : List Host) (pos : ℕ) → occurs j (cycle_slice hs pos (length hs)) ≡ occurs j hs
unfolding cycle_slice
occurs-round j [] pos = refl
occurs-round j (h ∷ hs) pos =
    let n = length (h ∷ hs) in
    ap (occurs j) (sym (cycle_slice-mod (h ∷ hs) pos n))
    ∙ ap (occurs j) (cycle_slice_round (h ∷ hs) (pos % n) (mod-lt pos (omega arith)))
    ∙ occurs-rotate j (h ∷ hs) (pos % n)

pub round_if_any :
    (hs : List Host) (pos : ℕ)
    → (if ltb 0 (length hs) then cycle_slice hs (pos % length hs) (length hs) else [])
      ≡ cycle_slice hs pos (length hs)
unfolding cycle_slice
round_if_any [] pos = refl
round_if_any (h ∷ hs) pos =
    rw (lt→ltb 0 (suc (length hs)) (omega arith)) (cycle_slice-mod (h ∷ hs) pos (suc (length hs)))

module _ (iteration : List Host → List Host) where
  plan-eq-round :
      (p : RoundRobin)
      → (make_query_plan iteration p).0
        ≡ cycle_slice (iteration p.live_hosts) p.position (length (iteration p.live_hosts))
  unfolding make_query_plan
  plan-eq-round p = round_if_any (iteration p.live_hosts) p.position

  pub occurs-plan :
      IsIteration iteration
      → (p : RoundRobin) (j : Host)
      → occurs j (make_query_plan iteration p).0 ≡ occurs j p.live_hosts
  occurs-plan order p j =
      ap (occurs j) (plan-eq-round p)
      ∙ occurs-round j (iteration p.live_hosts) p.position
      ∙ order.same_hosts p.live_hosts j

  -- The host that each of `count` successive plans puts first.
  unfoldable pub first_choices : ℕ → RoundRobin → List Host
  first_choices zero p = []
  first_choices (suc count) p =
      let (plan, p') = make_query_plan iteration p in
      prepend (get_elem? plan 0) (first_choices count p')

  first-plan :
      (p : RoundRobin)
      → get_elem? (make_query_plan iteration p).0 0
        ≡ get_elem? (iteration p.live_hosts) (p.position % length (iteration p.live_hosts))
  first-plan p = rw plan-eq-round (cycle_slice_first (iteration p.live_hosts) p.position)

  first_choices-eq-slice :
      (count : ℕ) (p : RoundRobin)
      → first_choices count p ≡ cycle_slice (iteration p.live_hosts) p.position count
  unfolding first_choices cycle_slice make_query_plan
  first_choices-eq-slice zero p = refl
  first_choices-eq-slice (suc count) p = rw (first-plan p) (
      ap
        (prepend
          (get_elem? (iteration p.live_hosts) (p.position % length (iteration p.live_hosts))))
        (first_choices-eq-slice count (make_query_plan iteration p).1))

  -- Over as many successive plans as there are live hosts, each live host comes first once.
  pub first_choices_even :
      IsIteration iteration
      → (p : RoundRobin) (j : Host)
      → occurs j (first_choices (length p.live_hosts) p) ≡ occurs j p.live_hosts
  first_choices_even order p j =
      ap (occurs j) (first_choices-eq-slice (length p.live_hosts) p)
      ∙ ap (λ (n : ℕ). occurs j (cycle_slice (iteration p.live_hosts) p.position n))
          (sym (order.same_length p.live_hosts))
      ∙ occurs-round j (iteration p.live_hosts) p.position
      ∙ order.same_hosts p.live_hosts j

-- Whether a host counts as live after a call, or after several, if it does or does not before.
unfoldable pub is_live_next : Bool → HostEvent → Host → Bool
is_live_next before (up h) j = host_eq h j || before
is_live_next before (add h) j = host_eq h j || before
is_live_next before (down h) j = not (host_eq h j) && before
is_live_next before (remove h) j = not (host_eq h j) && before

unfoldable pub is_live_after : Bool → List HostEvent → Host → Bool
unfolding is_live_next
is_live_after before [] j = before
is_live_after before (e ∷ es) j = is_live_after (is_live_next before e j) es j

pub contains-notify :
    (e : HostEvent) (p : RoundRobin) (j : Host)
    → contains (notify p e).live_hosts j ≡ is_live_next (contains p.live_hosts j) e j
unfolding notify is_live_next
contains-notify (up h) p j = contains-union p.live_hosts h j
contains-notify (add h) p j = contains-union p.live_hosts h j
contains-notify (down h) p j = contains-difference p.live_hosts h j
contains-notify (remove h) p j = contains-difference p.live_hosts h j

contains-notify_all :
    (es : List HostEvent) (p : RoundRobin) (j : Host)
    → contains (notify_all p es).live_hosts j ≡ is_live_after (contains p.live_hosts j) es j
unfolding notify_all is_live_after
contains-notify_all [] p j = refl
contains-notify_all (e ∷ es) p j =
    contains-notify_all es (notify p e) j ∙ ap (λ b. is_live_after b es j) (contains-notify e p j)

pub notify-IsDistinct :
    (e : HostEvent) (p : RoundRobin) → IsDistinct p.live_hosts → IsDistinct (notify p e).live_hosts
unfolding notify
notify-IsDistinct (up h) p d = union-IsDistinct p.live_hosts h d
notify-IsDistinct (add h) p d = union-IsDistinct p.live_hosts h d
notify-IsDistinct (down h) p d = difference-IsDistinct p.live_hosts h d
notify-IsDistinct (remove h) p d = difference-IsDistinct p.live_hosts h d

notify_all-IsDistinct :
    (es : List HostEvent) (p : RoundRobin)
    → IsDistinct p.live_hosts
    → IsDistinct (notify_all p es).live_hosts
unfolding notify_all
notify_all-IsDistinct [] p d = d
notify_all-IsDistinct (e ∷ es) p d = notify_all-IsDistinct es (notify p e) (notify-IsDistinct e p d)

pub contains-populate :
    (hosts : List Host) (random : ℕ) (p : RoundRobin) (j : Host)
    → contains (populate hosts random p).live_hosts j ≡ contains hosts j
unfolding populate
contains-populate hosts random p j = contains-frozenset hosts j

pub populate-IsDistinct :
    (hosts : List Host) (random : ℕ) (p : RoundRobin)
    → IsDistinct (populate hosts random p).live_hosts
unfolding populate
populate-IsDistinct hosts random p = frozenset-IsDistinct hosts

-- After `populate` with any hosts and then any listener calls, a query plan has each host that is
-- live by those calls exactly once, and no other.
pub plan_of_live_hosts :
    (iteration : List Host → List Host)
    → IsIteration iteration
    → (hosts : List Host) (random : ℕ) (p : RoundRobin) (es : List HostEvent) (j : Host)
    → occurs j (make_query_plan iteration (notify_all (populate hosts random p) es)).0
      ≡ (if is_live_after (contains hosts j) es j then 1 else 0)
plan_of_live_hosts iteration order hosts random p es j =
    let q = notify_all (populate hosts random p) es in
    let once : occurs j q.live_hosts ≤ 1 =
      notify_all-IsDistinct es _ (populate-IsDistinct hosts random p) j in
    ground (
      arith,
      occurs-plan iteration order q j,
      contains-occurs j q.live_hosts,
      contains-notify_all es (populate hosts random p) j,
      once,
      contains-populate hosts random p j,
    )
