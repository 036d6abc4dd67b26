-- ===== src/Policies/DcAware/Groups.antt =====
-- `populate` of Policies/DcAware.antt groups neighbours only: what that loses.
use python_driver.Prelude.{
  ℕ, ◌≡◌, refl, ap, ◌∙◌, String, false, List, [], ◌∷◌, arith, if◌then◌else◌, str_eq, eq_iff,
}
use python_driver.Prelude.Dict.{lookup_or, insert, lookup_or-insert}
use python_driver.Policies.Hosts.{Host, host_eq, contains, frozenset}
use python_driver.Policies.Hosts.Sets.{contains-occurs, contains-frozenset}
use python_driver.Policies.RoundRobin.Plans.{IsIteration}
use python_driver.Policies.DcAware.{
  DcAware, dc_of, listed, populate, assign_groups, groupby, add_to_group,
}

-- The hosts of the last group with the key, or those of before.
abbrev last_group : String → List (String × List Host) → List Host → List Host
last_group dc [] before = before
last_group dc ((k, hs) ∷ groups) before = last_group dc groups (if str_eq k dc then hs else before)

-- The hosts of the last run of neighbours in one data center.
abbrev pub last_run : (Host → String) → String → List Host → List Host
last_run key dc hs = last_group dc (groupby key hs) []

contains-iteration :
    (iteration : List Host → List Host)
    → IsIteration iteration
    → (hs : List Host) (j : Host) → contains (iteration (frozenset hs)) j ≡ contains hs j
contains-iteration iteration order hs j = ground (
  arith,
  contains-occurs j (iteration (frozenset hs)),
  contains-occurs j (frozenset hs),
  order.same_hosts (frozenset hs) j,
  contains-frozenset hs j,
)

module _ (iteration : List Host → List Host) (order : IsIteration iteration) where
  contains-assign_groups :
      (groups : List (String × List Host)) (d : List (String × List Host)) (dc : String) (j : Host)
      (before : List Host)
      → contains (lookup_or [] dc d) j ≡ contains before j
      → contains (lookup_or [] dc (assign_groups iteration groups d)) j
        ≡ contains (last_group dc groups before) j
  unfolding assign_groups
  contains-assign_groups [] d dc j before e = e
  contains-assign_groups ((k, hs) ∷ groups) d dc j before e =
      contains-assign_groups groups (insert k (iteration (frozenset hs)) d) dc j
        (if str_eq k dc then hs else before)
        (ground (
          arith,
          lookup_or-insert [] k dc (iteration (frozenset hs)) d,
          contains-iteration iteration order hs j,
        ))

  -- After `populate` of a new policy, a data center lists exactly the hosts of the last run of
  -- neighbours of that data center in `hosts`: those of its earlier runs are overwritten.
  pub populate-last_run :
      (contact : List String) (random : ℕ) (hosts : List Host) (p : DcAware) (dc : String)
      (j : Host)
      → p.dc_live_hosts ≡ []
      → contains (listed (populate iteration contact random hosts p) dc) j
        ≡ contains (last_run (dc_of p) dc hosts) j
  unfolding populate listed
  populate-last_run contact random hosts p dc j e =
      contains-assign_groups (groupby (dc_of p) hosts) p.dc_live_hosts dc j []
        (ap (λ d. contains (lookup_or [] dc d) j) e ∙ (unfold lookup_or in refl))

  -- Given three hosts of which the first and the last are of one data center and the middle one is
  -- not, `populate` of a new policy leaves the first unlisted (unless the last has its address).
  pub populate_loses_host :
      (contact : List String) (random : ℕ) (h other k : Host) (p : DcAware)
      → p.dc_live_hosts ≡ []
      → str_eq (dc_of p other) (dc_of p h) ≡ false
      → dc_of p k ≡ dc_of p h
      → host_eq k h ≡ false
      → contains (listed (populate iteration contact random (h ∷ other ∷ k ∷ []) p) (dc_of p h)) h
        ≡ false
  unfolding groupby add_to_group contains
  populate_loses_host contact random h other k p e apart same distinct =
      populate-last_run contact random (h ∷ other ∷ k ∷ []) p (dc_of p h) h e
      ∙ ground (
        arith,
        eq_iff (dc_of p k) (dc_of p other),
        eq_iff (dc_of p other) (dc_of p h),
        eq_iff (dc_of p k) (dc_of p h),
        eq_iff (dc_of p h) (dc_of p h),
      )
