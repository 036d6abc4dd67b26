-- ===== src/Policies/RoundRobin.antt =====
-- `RoundRobinPolicy` and `WhiteListRoundRobinPolicy` of cassandra/policies.py
pub mod Cycle
pub mod Plans
pub mod WhiteList
use python_driver.Prelude.{
  ℕ, zero, suc, ◌+◌, ◌%◌, String, Bool, ◌||◌, true, false, Option, none, some, List, [], ◌∷◌, ltb,
  length, get_elem?, if◌then◌else◌, str_eq,
}
use python_driver.Policies.Hosts.{
  Host, HostDistance, local, ignored, Query, contains, union, difference, frozenset,
}

pub record RoundRobin : Type 0 where
  pub live_hosts : List Host
  pub position : ℕ

abbrev pub prepend {ℓ} : {A : Type ℓ} → Option A → List A → List A
prepend none xs = xs
prepend (some x) xs = x ∷ xs

-- `islice(cycle(hosts), pos, pos + count)`: `cycle` of an empty sequence yields nothing.
unfoldable pub cycle_slice {ℓ} : {A : Type ℓ} → List A → ℕ → ℕ → List A
cycle_slice hosts pos zero = []
cycle_slice hosts pos (suc count) =
    prepend (get_elem? hosts (pos % length hosts)) (cycle_slice hosts (pos + 1) count)

-- `random` is what `randint(0, len(hosts) - 1)` returns.
unfoldable pub populate : List Host → ℕ → RoundRobin → RoundRobin
unfolding frozenset
populate hosts random p = record {
  live_hosts = frozenset hosts;
  position = if ltb 1 (length hosts) then random else p.position;
}

-- `iteration` is the order in which Python iterates over a frozenset.
unfoldable pub make_query_plan : (List Host → List Host) → RoundRobin → List Host × RoundRobin
unfolding cycle_slice
make_query_plan iteration p =
    let hosts = iteration p.live_hosts in
    let n = length hosts in
    (
      (if ltb 0 n then cycle_slice hosts (p.position % n) n else []),
      record p { position = p.position + 1 },
    )

unfoldable pub on_up : RoundRobin → Host → RoundRobin
on_up p h = record p { live_hosts = union p.live_hosts h }

unfoldable pub on_down : RoundRobin → Host → RoundRobin
on_down p h = record p { live_hosts = difference p.live_hosts h }

unfoldable pub on_add : RoundRobin → Host → RoundRobin
on_add p h = record p { live_hosts = union p.live_hosts h }

unfoldable pub on_remove : RoundRobin → Host → RoundRobin
on_remove p h = record p { live_hosts = difference p.live_hosts h }

unfoldable pub distance : RoundRobin → Host → HostDistance
distance p h = local

-- A `HostStateListener` call.
pub data HostEvent : Type 0 where
  up down add remove : Host → HostEvent

unfoldable pub notify : RoundRobin → HostEvent → RoundRobin
unfolding on_up on_down on_add on_remove
notify p (up h) = on_up p h
notify p (down h) = on_down p h
notify p (add h) = on_add p h
notify p (remove h) = on_remove p h

unfoldable pub notify_all : RoundRobin → List HostEvent → RoundRobin
notify_all p [] = p
notify_all p (e ∷ es) = notify_all (notify p e) es
