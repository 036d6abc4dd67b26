-- ===== src/Policies/RoundRobin/WhiteList.antt =====
-- `WhiteListRoundRobinPolicy` of cassandra/policies.py. The addresses that `socket.getaddrinfo`
-- resolved the allowed hosts to are a field; the methods that it inherits are those of RoundRobin.
use python_driver.Prelude.{
  ℕ, ◌≡◌, refl, ap, ◌∙◌, String, Bool, true, false, ◌&&◌, ◌||◌, List, [], ◌∷◌, arith, leb, length,
  if◌then◌else◌, str_eq, eq_iff,
}
use python_driver.Policies.Hosts.{
  Host, HostDistance, local, ignored, host_eq, contains, occurs, frozenset,
}
use python_driver.Policies.Hosts.Sets.{
  contains-occurs, contains-frozenset, frozenset-IsDistinct, IsDistinct,
}
use python_driver.Policies.RoundRobin
use python_driver.Policies.RoundRobin.{
  RoundRobin, HostEvent, up, down, add, remove, on_up, on_down, on_add, on_remove, make_query_plan,
}
use python_driver.Policies.RoundRobin.Plans.{
  IsIteration, is_live_next, is_live_after, occurs-plan, contains-notify, notify-IsDistinct,
}

pub record WhiteList : Type 0 where
  pub allowed_hosts_resolved : List String
  pub base : RoundRobin

-- `address in self._allowed_hosts_resolved`
unfoldable pub is_allowed : List String → Host → Bool
is_allowed [] h = false
is_allowed (a ∷ allowed) h = str_eq a h.address || is_allowed allowed h

-- `h for h in hosts if h.address in self._allowed_hosts_resolved`
unfoldable pub keep_allowed : List String → List Host → List Host
keep_allowed allowed [] = []
keep_allowed allowed (h ∷ hs) =
    let rest = keep_allowed allowed hs in if is_allowed allowed h then h ∷ rest else rest

-- `random` is what `randint(0, len(hosts) - 1)` returns.
unfoldable pub populate : List Host → ℕ → WhiteList → WhiteList
unfolding keep_allowed
populate hosts random w = record w {
  base = record {
    live_hosts = frozenset (keep_allowed w.allowed_hosts_resolved hosts);
    position = if leb (length hosts) 1 then 0 else random;
  };
}

unfoldable pub distance : WhiteList → Host → HostDistance
distance w h = if is_allowed w.allowed_hosts_resolved h then local else ignored

-- The overridden methods; `on_down` and `on_remove` are inherited.
unfoldable pub notify : WhiteList → HostEvent → WhiteList
notify w (up h) =
    if is_allowed w.allowed_hosts_resolved h then record w { base = on_up w.base h } else w
notify w (add h) =
    if is_allowed w.allowed_hosts_resolved h then record w { base = on_add w.base h } else w
notify w e = record w { base = RoundRobin.notify w.base e }

unfoldable pub notify_all : WhiteList → List HostEvent → WhiteList
notify_all w [] = w
notify_all w (e ∷ es) = notify_all (notify w e) es

is_allowed_cong :
    (allowed : List String) (h j : Host)
    → host_eq h j ≡ true
    → is_allowed allowed h ≡ is_allowed allowed j
unfolding is_allowed
is_allowed_cong [] h j e = refl
is_allowed_cong (a ∷ allowed) h j e = ground (
  arith,
  is_allowed_cong allowed h j,
  eq_iff h.address j.address,
  eq_iff a h.address,
  eq_iff a j.address,
)

contains-keep_allowed :
    (allowed : List String) (hs : List Host) (j : Host)
    → contains (keep_allowed allowed hs) j ≡ (is_allowed allowed j && contains hs j)
unfolding keep_allowed contains
contains-keep_allowed allowed [] j = ground arith
contains-keep_allowed allowed (h ∷ hs) j =
    ground (arith, contains-keep_allowed allowed hs j, is_allowed_cong allowed h j)

-- The live hosts are distinct, and are the allowed ones of those that `before` counts as live.
record Follows (allowed : List String) (w : WhiteList) (j : Host) (before : Bool) : Type 0 where
  kept : w.allowed_hosts_resolved ≡ allowed
  distinct : IsDistinct w.base.live_hosts
  live : contains w.base.live_hosts j ≡ (is_allowed allowed j && before)

notify-up : (p : RoundRobin) (h : Host) → on_up p h ≡ RoundRobin.notify p (up h)
unfolding RoundRobin.notify
notify-up p h = refl

notify-add : (p : RoundRobin) (h : Host) → on_add p h ≡ RoundRobin.notify p (add h)
unfolding RoundRobin.notify
notify-add p h = refl

module _ (allowed : List String) (j : Host) where
  step-Follows :
      (e : HostEvent) (w : WhiteList) (p : RoundRobin) (before : Bool)
      → Follows allowed w j before
      → p ≡ RoundRobin.notify w.base e
      → is_live_next (is_allowed allowed j && before) e j
        ≡ (is_allowed allowed j && is_live_next before e j)
      → Follows allowed (record w { base = p }) j (is_live_next before e j)
  step-Follows e w p before f same agrees = rw same (record {
    kept = f.kept;
    distinct = notify-IsDistinct e w.base f.distinct;
    live = contains-notify e w.base j ∙ ap (λ b. is_live_next b e j) f.live ∙ agrees;
  })

  heard :
      (b before : Bool) (h : Host) (w w' : WhiteList)
      → is_allowed w.allowed_hosts_resolved h ≡ b
      → Follows allowed w j before
      → (is_allowed allowed h ≡ true → Follows allowed w' j (host_eq h j || before))
      → Follows allowed (if b then w' else w) j (host_eq h j || before)
  heard true before h w w' e f good = good (rw (← f.kept) e)
  heard false before h w w' e f good =
      let out : is_allowed allowed h ≡ false = rw (← f.kept) e in
      record {
        kept = f.kept;
        distinct = f.distinct;
        live = ground (arith, f.live, is_allowed_cong allowed h j);
      }

  notify-Follows :
      (e : HostEvent) (w : WhiteList) (before : Bool)
      → Follows allowed w j before
      → Follows allowed (notify w e) j (is_live_next before e j)
  unfolding notify is_live_next
  notify-Follows (up h) w before f = heard _ before h w _ refl f λ a.
      step-Follows (up h) w (on_up w.base h) before f (notify-up w.base h)
        (ground (arith, is_allowed_cong allowed h j))
  notify-Follows (add h) w before f = heard _ before h w _ refl f λ a.
      step-Follows (add h) w (on_add w.base h) before f (notify-add w.base h)
        (ground (arith, is_allowed_cong allowed h j))
  notify-Follows (down h) w before f = step-Follows (down h) w _ before f refl (ground arith)
  notify-Follows (remove h) w before f = step-Follows (remove h) w _ before f refl (ground arith)

  notify_all-Follows :
      (es : List HostEvent) (w : WhiteList) (before : Bool)
      → Follows allowed w j before
      → Follows allowed (notify_all w es) j (is_live_after before es j)
  unfolding notify_all is_live_after
  notify_all-Follows [] w before f = f
  notify_all-Follows (e ∷ es) w before f =
      notify_all-Follows es (notify w e) (is_live_next before e j) (notify-Follows e w before f)

populate-Follows :
    (hosts : List Host) (random : ℕ) (w : WhiteList) (j : Host)
    → Follows w.allowed_hosts_resolved (populate hosts random w) j (contains hosts j)
unfolding populate
populate-Follows hosts random w j =
    let kept = keep_allowed w.allowed_hosts_resolved hosts in
    record {
      kept = refl;
      distinct = frozenset-IsDistinct kept;
      live = contains-frozenset kept j ∙ contains-keep_allowed w.allowed_hosts_resolved hosts j;
    }

-- After `populate` and then any listener calls, a query plan has exactly once each host that is
-- live by those calls and has an allowed address, and no other host; the hosts whose distance is
-- not IGNORED are those with an allowed address.
pub plan_of_allowed_hosts :
    (iteration : List Host → List Host)
    → IsIteration iteration
    → (hosts : List Host) (random : ℕ) (w : WhiteList) (es : List HostEvent) (j : Host)
    → let w' : WhiteList = notify_all (populate hosts random w) es in
      (occurs j (make_query_plan iteration w'.base).0 ≡ (
        if is_allowed w.allowed_hosts_resolved j && is_live_after (contains hosts j) es j
        then 1
        else 0))
      × (distance w' j ≡ (if is_allowed w.allowed_hosts_resolved j then local else ignored))
unfolding distance
plan_of_allowed_hosts iteration order hosts random w es j =
    let w' : WhiteList = notify_all (populate hosts random w) es in
    let f =
      notify_all-Follows w.allowed_hosts_resolved j es (populate hosts random w) (contains hosts j)
        (populate-Follows hosts random w j) in
    (
      ground (
        arith,
        occurs-plan iteration order w'.base j,
        contains-occurs j w'.base.live_hosts,
        f.live,
        f.distinct j,
      ),
      rw (f.kept),
    )
