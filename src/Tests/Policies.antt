-- ===== src/Tests/Policies.antt =====
-- Tests of Policies: three nodes in two data centers, under every load balancing policy.
use python_driver.Prelude.{
  ℕ, ◌≡◌, refl, String, true, false, ◌&&◌, Option, none, some, List, [], ◌∷◌, arith, if◌then◌else◌,
}
use python_driver.Prelude.Dict.{lookup_or, times, insert, delete, keys}
use python_driver.Policies.Hosts.{
  Host, Query, local, ignored, contains, occurs, union, difference, frozenset, set_from, is_used,
}
use python_driver.Policies.RoundRobin
use python_driver.Policies.RoundRobin.{RoundRobin, HostEvent, up, down, add, remove}
use python_driver.Policies.RoundRobin.Plans.{
  IsIteration, is_live_after, first_choices, plan_of_live_hosts, first_choices_even,
}
use python_driver.Policies.RoundRobin.WhiteList
use python_driver.Policies.RoundRobin.WhiteList.{WhiteList, is_allowed, plan_of_allowed_hosts}
use python_driver.Policies.DcAware
use python_driver.Policies.DcAware.{DcAware, dc_of, listed}
use python_driver.Policies.DcAware.Placed.{IsPlaced}
use python_driver.Policies.DcAware.Events.{plan_after_calls}
use python_driver.Policies.DcAware.Groups.{populate_loses_host}
use python_driver.Policies.Wrappers.{
  LoadBalancingPolicy, is_local, is_remote, keyspace_of, token_aware_plan, plan_for_query,
  plan_for_key, replicas_first, keep,
}
use python_driver.Policies.Wrappers.Plans.{occurs-token_aware_plan}

abbrev node : String → String → Host
node address dc = record { address = address; datacenter = some dc; is_up = some true }

abbrev a : Host
a = node "10.0.0.1" "east"

abbrev b : Host
b = node "10.0.0.2" "west"

abbrev c : Host
c = node "10.0.0.3" "east"

abbrev in_order : List Host → List Host
in_order hs = hs

in_order-IsIteration : IsIteration in_order
in_order-IsIteration = record { same_hosts = λ hs j. refl; same_length = λ hs. refl }

abbrev fresh : RoundRobin
fresh = record { live_hosts = []; position = 4 }

abbrev calls : List HostEvent
calls = down b ∷ up c ∷ []

plan_of_live_hosts_example :
    occurs c
      (RoundRobin.make_query_plan in_order
        (RoundRobin.notify_all (RoundRobin.populate (a ∷ b ∷ []) 1 fresh) calls)).0
    ≡ (if is_live_after (contains (a ∷ b ∷ []) c) calls c then 1 else 0)
plan_of_live_hosts_example =
    plan_of_live_hosts in_order in_order-IsIteration (a ∷ b ∷ []) 1 fresh calls c

abbrev three : RoundRobin
three = record { live_hosts = a ∷ b ∷ c ∷ []; position = 4 }

first_choices_even_example : occurs b (first_choices in_order 3 three) ≡ occurs b (a ∷ b ∷ c ∷ [])
first_choices_even_example = first_choices_even in_order in_order-IsIteration three b

plan_starts_at_position : (RoundRobin.make_query_plan in_order three).0 ≡ b ∷ c ∷ a ∷ []
unfolding RoundRobin.make_query_plan
plan_starts_at_position = refl

abbrev white : WhiteList
white = record { allowed_hosts_resolved = "10.0.0.1" ∷ "10.0.0.3" ∷ []; base = fresh }

plan_of_allowed_hosts_example :
    (occurs b
        (RoundRobin.make_query_plan in_order
          (WhiteList.notify_all (WhiteList.populate (a ∷ b ∷ []) 1 white) calls).base).0
      ≡ (if is_allowed white.allowed_hosts_resolved b
            && is_live_after (contains (a ∷ b ∷ []) b) calls b
          then 1
          else 0))
    × (WhiteList.distance (WhiteList.notify_all (WhiteList.populate (a ∷ b ∷ []) 1 white) calls) b
        ≡ (if is_allowed white.allowed_hosts_resolved b then local else ignored))
plan_of_allowed_hosts_example =
    plan_of_allowed_hosts in_order in_order-IsIteration (a ∷ b ∷ []) 1 white calls b

abbrev aware : DcAware
aware = DcAware.init "east" 1

aware-IsPlaced : IsPlaced aware c
unfolding DcAware.init listed dc_of DcAware.or_default lookup_or times occurs
aware-IsPlaced = record {
  dict = λ k. omega arith;
  own_dc = λ dc. ground arith;
  located = refl;
  contacts = refl;
}

abbrev dc_calls : List HostEvent
dc_calls = up a ∷ up b ∷ up c ∷ down a ∷ []

plan_after_calls_example :
    (p' : DcAware) × (DcAware.notify_all aware dc_calls ≡ some p')
    × IsPlaced p' c
    × (occurs c (DcAware.make_query_plan p').0 ≡ (
        if is_used (DcAware.distance p' c)
          && is_live_after (contains (listed aware (dc_of aware c)) c) dc_calls c
        then 1
        else 0))
plan_after_calls_example =
    plan_after_calls dc_calls aware c aware-IsPlaced
      (λ e. cc, (λ e. cc, (λ e. refl, (λ e. cc, tt))))

dc_program : Unit {0}
unfolding DcAware.init listed dc_of DcAware.or_default lookup_or insert delete keys contains
    difference RoundRobin.cycle_slice DcAware.infer_local_dc DcAware.adopt_dc DcAware.address_in
    DcAware.list_host DcAware.on_up DcAware.store_hosts DcAware.on_down DcAware.notify
    DcAware.notify_all DcAware.remote_plan DcAware.make_query_plan DcAware.distance DcAware.groupby
    DcAware.add_to_group DcAware.assign_groups DcAware.populate frozenset set_from union
dc_program = tt

plan_of : Option DcAware → List Host
plan_of none = []
plan_of (some p) = (DcAware.make_query_plan p).0

local_then_remote : plan_of (DcAware.notify_all aware dc_calls) ≡ c ∷ b ∷ []
unfolding dc_program plan_of
local_then_remote = refl

populate_loses_host_example :
    contains (listed (DcAware.populate in_order [] 0 (a ∷ b ∷ c ∷ []) aware) (dc_of aware a)) a
    ≡ false
unfolding dc_program
populate_loses_host_example =
    populate_loses_host in_order in_order-IsIteration [] 0 a b c aware refl refl refl refl

abbrev round_robin_policy : LoadBalancingPolicy
round_robin_policy = record {
  State = RoundRobin;
  distance = RoundRobin.distance;
  make_query_plan = λ p keyspace query. RoundRobin.make_query_plan in_order p;
  notify = RoundRobin.notify;
}

abbrev select : Query
select = record { keyspace = none; routing_key = some (7 ∷ []) }

replicas_of : String → List ℕ → List Host
replicas_of keyspace key = c ∷ a ∷ []

occurs-token_aware_plan_example :
    occurs c
      (token_aware_plan round_robin_policy replicas_of in_order three (some "ks") (some select)).0
    ≡ (if contains (replicas_of "ks" (7 ∷ [])) c
        then (if is_local (RoundRobin.distance three c)
            then (if true then occurs c (replicas_of "ks" (7 ∷ [])) else 0)
            else if is_remote (RoundRobin.distance three c)
            then occurs c (RoundRobin.make_query_plan in_order three).0
            else 0)
        else occurs c (RoundRobin.make_query_plan in_order three).0)
unfolding RoundRobin.make_query_plan RoundRobin.distance replicas_of keyspace_of
occurs-token_aware_plan_example =
    occurs-token_aware_plan round_robin_policy replicas_of in_order three (some "ks") select "ks"
      (7 ∷ []) c (λ hs. refl) refl refl (λ e. refl, (λ e. cc, tt))
      (λ e. cc, (λ e. refl, (λ e. cc, tt))) refl

replicas_come_first :
    (token_aware_plan round_robin_policy replicas_of in_order three (some "ks") (some select)).0
    ≡ c ∷ a ∷ b ∷ []
unfolding RoundRobin.make_query_plan replicas_of keyspace_of token_aware_plan plan_for_query
    plan_for_key replicas_first keep contains RoundRobin.distance
replicas_come_first = refl
