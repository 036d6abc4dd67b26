-- ===== src/Policies/Wrappers.antt =====
-- `TokenAwarePolicy` and `HostFilterPolicy` of cassandra/policies.py, over any child policy. The
-- cluster metadata's `get_replicas` and the random `shuffle` are arguments.
pub mod Plans
use python_driver.Prelude.{
  ℕ, String, Bool, true, false, ◌&&◌, ◌||◌, not, Option, none, some, List, [], ◌∷◌, ◌++◌,
  if◌then◌else◌, str_eq,
}
use python_driver.Policies.Hosts.{Host, HostDistance, local, remote, ignored, Query, contains}
use python_driver.Policies.RoundRobin.{HostEvent}

-- `LoadBalancingPolicy`: a plan depends on the keyspace and the query, and may change the state.
pub record LoadBalancingPolicy : Type 1 where
  pub State : Type 0
  pub distance : State → Host → HostDistance
  pub make_query_plan : State → Option String → Option Query → List Host × State
  pub notify : State → HostEvent → State

abbrev pub is_local : HostDistance → Bool
is_local local = true
is_local remote = false
is_local ignored = false

abbrev pub is_remote : HostDistance → Bool
is_remote remote = true
is_remote local = false
is_remote ignored = false

-- None and False are falsy.
abbrev pub truthy : Option Bool → Bool
truthy none = false
truthy (some b) = b

-- `for host in hosts: if test(host): yield host`
unfoldable pub keep : (Host → Bool) → List Host → List Host
keep test [] = []
keep test (h ∷ hs) = let rest = keep test hs in if test h then h ∷ rest else rest

-- `query.keyspace` if the query has one that is not empty, else the working keyspace
unfoldable pub keyspace_of : Option Query → Option String → Option String
keyspace_of none working = working
keyspace_of (some q) working = elim q.keyspace [
  | none ↦ working
  | some k ↦ if str_eq k "" then working else some k
]

module _ (child : LoadBalancingPolicy) where
  open child use {State, distance, make_query_plan}

  -- The branch with a routing key and a keyspace. The child's plan is asked for after the
  -- replicas, in the state `s`, and leaves the state `s'`.
  unfoldable pub replicas_first : State → State → List Host → List Host → List Host
  replicas_first s s' replicas child_plan =
      keep (λ h. truthy h.is_up && is_local (distance s h)) replicas
      ++ keep (λ h. not (contains replicas h) || is_remote (distance s' h)) child_plan

  module _ (get_replicas : String → List ℕ → List Host) (shuffle : List Host → List Host) where
    unfoldable pub plan_for_key :
        State → State → Option String → Option (List ℕ) → List Host → List Host
    plan_for_key s s' (some keyspace) (some key) child_plan =
        replicas_first s s' (shuffle (get_replicas keyspace key)) child_plan
    plan_for_key s s' keyspace key child_plan = child_plan

    unfoldable pub plan_for_query :
        State → State → Option String → Option Query → List Host → List Host
    plan_for_query s s' keyspace none child_plan = child_plan
    plan_for_query s s' keyspace (some q) child_plan =
        plan_for_key s s' keyspace q.routing_key child_plan

    -- `TokenAwarePolicy.make_query_plan`, consumed at once; `shuffle` is the identity if
    -- `shuffle_replicas` is not set.
    unfoldable pub token_aware_plan : State → Option String → Option Query → List Host × State
    token_aware_plan s working query =
        let keyspace = keyspace_of query working in
        let (child_plan, s') = make_query_plan s keyspace query in
        (plan_for_query s s' keyspace query child_plan, s')

  unfoldable pub token_aware_distance : State → Host → HostDistance
  token_aware_distance s h = distance s h

  unfoldable pub filter_distance : (Host → Bool) → State → Host → HostDistance
  filter_distance predicate s h = if predicate h then distance s h else ignored

  -- `HostFilterPolicy.make_query_plan`
  unfoldable pub filter_plan :
      (Host → Bool) → State → Option String → Option Query → List Host × State
  filter_plan predicate s working query =
      let (child_plan, s') = make_query_plan s working query in (keep predicate child_plan, s')
