-- ===== src/Policies/Wrappers/Plans.antt =====
-- Which hosts the plans of Policies/Wrappers.antt hold.
use python_driver.Prelude.{
  ℕ, ◌≡◌, String, Bool, true, not, ◌&&◌, ◌||◌, Option, some, List, [], ◌∷◌, arith, if◌then◌else◌,
  All, Bool-cases, inl, inr,
}
use python_driver.Policies.Hosts.{Host, Query, host_eq, contains, occurs}
use python_driver.Policies.Hosts.Sets.{contains-occurs, occurs-append}
use python_driver.Policies.Wrappers.{
  LoadBalancingPolicy, is_local, is_remote, truthy, keep, keyspace_of, replicas_first,
  token_aware_plan, plan_for_query, plan_for_key,
}

-- The driver has one `Host` object for an address.
abbrev pub IsUnique : Host → List Host → Type 0
IsUnique j hs = All (λ h. host_eq h j ≡ true → h ≡ j) hs

pub occurs-keep :
    (test : Host → Bool) (hs : List Host) (j : Host)
    → IsUnique j hs
    → occurs j (keep test hs) ≡ (if test j then occurs j hs else 0)
unfolding keep occurs
occurs-keep test [] j u = ground arith
occurs-keep test (h ∷ hs) j u = elim (Bool-cases (host_eq h j)) [
  | inl same ↦ rw (u.0 same) (ground (arith, occurs-keep test hs j u.1))
  | inr other ↦ ground (arith, occurs-keep test hs j u.1)
]

module _ (child : LoadBalancingPolicy) where
  open child use {State, distance, make_query_plan}

  module _ (s s' : State) (replicas child_plan : List Host) (j : Host) where
    occurs-replicas_first :
        IsUnique j replicas
        → IsUnique j child_plan
        → distance s' j ≡ distance s j
        → occurs j (replicas_first child s s' replicas child_plan) ≡ (
            if contains replicas j
            then (if is_local (distance s j)
                then (if truthy j.is_up then occurs j replicas else 0)
                else if is_remote (distance s j)
                then occurs j child_plan
                else 0)
            else occurs j child_plan)
    unfolding replicas_first
    occurs-replicas_first ur uc same = ground (
      arith,
      occurs-append j (keep (λ h. truthy h.is_up && is_local (distance s h)) replicas)
          (keep (λ h. not (contains replicas h) || is_remote (distance s' h)) child_plan),
      occurs-keep (λ h. truthy h.is_up && is_local (distance s h)) replicas j ur,
      occurs-keep (λ h. not (contains replicas h) || is_remote (distance s' h)) child_plan j uc,
      contains-occurs j replicas,
      same,
    )

  module _ (get_replicas : String → List ℕ → List Host) (shuffle : List Host → List Host)
      (s : State) (working : Option String) (q : Query) (keyspace : String) (key : List ℕ)
      (j : Host) where
    -- For a query with a routing key, and a keyspace of its own or a working one, let the replicas
    -- be what the metadata gives and the child's plan what the child gives. A host that is no
    -- replica, or a REMOTE one, comes as often as in the child's plan. A LOCAL replica comes as often
    -- as among the replicas if it is marked up, and not at all if it is not; an IGNORED replica does
    -- not come. The shuffle only reorders, the child's distances do not depend on its plans, and an
    -- address has one `Host` object.
    pub occurs-token_aware_plan :
        ((hs : List Host) → occurs j (shuffle hs) ≡ occurs j hs)
        → q.routing_key ≡ some key
        → keyspace_of (some q) working ≡ some keyspace
        → IsUnique j (shuffle (get_replicas keyspace key))
        → IsUnique j (make_query_plan s (some keyspace) (some q)).0
        → distance (make_query_plan s (some keyspace) (some q)).1 j ≡ distance s j
        → occurs j (token_aware_plan child get_replicas shuffle s working (some q)).0 ≡ (
            let replicas : List Host = get_replicas keyspace key in
            let child_plan : List Host = (make_query_plan s (some keyspace) (some q)).0 in
            if contains replicas j
            then (if is_local (distance s j)
                then (if truthy j.is_up then occurs j replicas else 0)
                else if is_remote (distance s j)
                then occurs j child_plan
                else 0)
            else occurs j child_plan)
    unfolding token_aware_plan plan_for_query plan_for_key
    occurs-token_aware_plan reorders keyed named ur uc same =
        let shuffled = shuffle (get_replicas keyspace key) in
        let (child_plan, s') = make_query_plan s (some keyspace) (some q) in
        rw (named, keyed, plan_for_key)
          (ground (
            arith,
            occurs-replicas_first s s' shuffled child_plan j ur uc same,
            reorders (get_replicas keyspace key),
            contains-occurs j shuffled,
            contains-occurs j (get_replicas keyspace key),
          ))
