-- ===== src/Policies/Hosts.antt =====
-- `Host` of cassandra/pool.py as the policies read it, `HostDistance` of cassandra/policies.py, and
-- a Python set of hosts. Two hosts are equal in Python when their addresses are (`Host.__eq__`).
pub mod Sets
use python_driver.Prelude.{
  ℕ, ◌+◌, ◌≤◌, ◌≡◌, refl, String, Bool, true, false, ◌||◌, Option, List, [], ◌∷◌, ◌++◌, arith,
  length, if◌then◌else◌, str_eq, eq_iff,
}

-- `is_up` is None while it is not known whether the node is up.
pub record Host : Type 0 where
  pub address : String
  pub datacenter : Option String
  pub is_up : Option Bool

pub data HostDistance : Type 0 where
  ignored local remote : HostDistance

abbrev pub is_used : HostDistance → Bool
is_used ignored = false
is_used local = true
is_used remote = true

-- What the policies read of a statement.
pub record Query : Type 0 where
  pub keyspace : Option String
  pub routing_key : Option (List ℕ)

-- Host.__eq__
abbrev pub host_eq : Host → Host → Bool
host_eq a b = str_eq a.address b.address

-- `host in hosts`
unfoldable pub contains : List Host → Host → Bool
contains [] j = false
contains (h ∷ hs) j = host_eq h j || contains hs j

-- How many of the hosts have the address of `j`.
unfoldable pub occurs : Host → List Host → ℕ
occurs j [] = 0
occurs j (h ∷ hs) = (if host_eq h j then 1 else 0) + occurs j hs

-- `hosts.union((host, ))`: an equal host that is there already is kept.
unfoldable pub union : List Host → Host → List Host
unfolding contains
union hs h = if contains hs h then hs else hs ++ h ∷ []

-- `hosts.difference((host, ))`, and `tuple(h for h in hosts if h != host)`
unfoldable pub difference : List Host → Host → List Host
difference [] h = []
difference (x ∷ xs) h = let rest = difference xs h in if host_eq x h then rest else x ∷ rest

-- `frozenset(hosts)`
unfoldable pub set_from : List Host → List Host → List Host
unfolding union
set_from seen [] = seen
set_from seen (h ∷ hs) = set_from (union seen h) hs

unfoldable pub frozenset : List Host → List Host
unfolding set_from
frozenset hs = set_from [] hs
