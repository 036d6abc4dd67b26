-- ===== src/Policies/DcAware/Plans.antt =====
-- The query plans of Policies/DcAware.antt against its distances.
use python_driver.Prelude.{
  ℕ, zero, suc, ◌+◌, ◌%◌, ◌≤◌, ◌≡◌, refl, String, true, false, ◌&&◌, ◌||◌, List, [], ◌∷◌, arith,
  ltb, ◌==◌, length, take, if◌then◌else◌, str_eq, eq_iff, lt→ltb,
}
use python_driver.Prelude.Dict.{keys, times, lookup_or_absent}
use python_driver.Policies.Hosts.{Host, is_used, contains, occurs}
use python_driver.Policies.Hosts.Sets.{contains-occurs, occurs-append, occurs-take-le}
use python_driver.Policies.RoundRobin.{cycle_slice}
use python_driver.Policies.RoundRobin.Cycle.{cycle_slice-mod}
use python_driver.Policies.RoundRobin.Plans.{occurs-round}
use python_driver.Policies.DcAware.{DcAware, dc_of, listed, remote_plan, make_query_plan, distance}
use python_driver.Policies.DcAware.Placed.{IsPlaced}

none_of_zero :
    (n : ℕ) (hs : List Host) (j : Host) → (n == 0) ≡ true → contains (take n hs) j ≡ false
unfolding contains
none_of_zero zero hs j e = refl
none_of_zero (suc n) hs j e = absurd (ground arith)

module _ (p : DcAware) (j : Host) where
  occurs-remote_plan :
      (d : List (String × List Host))
      → ((dc : String) → occurs j (listed p dc) ≤ (if str_eq dc (dc_of p j) then 1 else 0))
      → times (dc_of p j) d ≤ 1
      → occurs j (remote_plan p (keys d)) ≡ (
          if str_eq (dc_of p j) p.local_dc
          then 0
          else if times (dc_of p j) d == 0
          then 0
          else occurs j (take p.used_hosts_per_remote_dc (listed p (dc_of p j))))
  unfolding remote_plan keys times occurs
  occurs-remote_plan [] own once = ground arith
  occurs-remote_plan ((i, w) ∷ d) own once = ground (
    arith,
    occurs-remote_plan d own,
    own i,
    eq_iff i (dc_of p j),
    eq_iff i p.local_dc,
    eq_iff (dc_of p j) p.local_dc,
    occurs-append j (take p.used_hosts_per_remote_dc (listed p i)) (remote_plan p (keys d)),
    occurs-take-le p.used_hosts_per_remote_dc (listed p i) j,
  )

  pos_if_any :
      (hs : List Host)
      → cycle_slice hs (if ltb 0 (length hs) then p.position % length hs else 0) (length hs)
        ≡ cycle_slice hs p.position (length hs)
  unfolding cycle_slice
  pos_if_any [] = refl
  pos_if_any (h ∷ hs) =
      rw (lt→ltb 0 (suc (length hs)) (omega arith))
        (cycle_slice-mod (h ∷ hs) p.position (suc (length hs)))

  occurs-plan :
      occurs j (make_query_plan p).0
      ≡ occurs j (listed p p.local_dc) + occurs j (remote_plan p (keys p.dc_live_hosts))
  unfolding make_query_plan
  occurs-plan = rw (pos_if_any (listed p p.local_dc), occurs-append, occurs-round)

  absent : times (dc_of p j) p.dc_live_hosts ≡ 0 → occurs j (listed p (dc_of p j)) ≡ 0
  unfolding listed occurs
  absent e = rw (lookup_or_absent [] (dc_of p j) p.dc_live_hosts e)

  is_used-distance : is_used (distance p j) ≡ (
      str_eq (dc_of p j) p.local_dc
      || contains (take p.used_hosts_per_remote_dc (listed p (dc_of p j))) j)
  unfolding distance
  is_used-distance =
      ground (arith, none_of_zero p.used_hosts_per_remote_dc (listed p (dc_of p j)) j)

  -- A plan has exactly once each host that is listed and whose distance is not IGNORED, and no
  -- other host.
  pub plan_of_distance :
      IsPlaced p j
      → occurs j (make_query_plan p).0
        ≡ (if is_used (distance p j) && contains (listed p (dc_of p j)) j then 1 else 0)
  plan_of_distance placed = ground (
    arith,
    occurs-plan,
    occurs-remote_plan p.dc_live_hosts placed.own_dc (placed.dict (dc_of p j)),
    placed.own_dc (dc_of p j),
    placed.own_dc p.local_dc,
    eq_iff (dc_of p j) p.local_dc,
    eq_iff p.local_dc (dc_of p j),
    eq_iff (dc_of p j) (dc_of p j),
    contains-occurs j (listed p (dc_of p j)),
    contains-occurs j (take p.used_hosts_per_remote_dc (listed p (dc_of p j))),
    occurs-take-le p.used_hosts_per_remote_dc (listed p (dc_of p j)) j,
    absent,
    is_used-distance,
  )
