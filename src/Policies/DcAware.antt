-- ===== src/Policies/DcAware.antt =====
-- `DCAwareRoundRobinPolicy` of cassandra/policies.py
pub mod Placed
pub mod Events
pub mod Groups
pub mod Plans
use python_driver.Prelude.{
  ℕ, ◌+◌, ◌%◌, String, Bool, true, false, ◌&&◌, ◌||◌, not, Option, none, some, List, [], ◌∷◌, ◌++◌,
  ltb, ◌==◌, length, take, if◌then◌else◌, str_eq,
}
use python_driver.Prelude.Dict.{lookup, lookup_or, insert, delete, keys}
use python_driver.Policies.Hosts.{
  Host, HostDistance, local, remote, ignored, contains, difference, frozenset,
}
use python_driver.Policies.RoundRobin.{HostEvent, up, down, add, remove, cycle_slice}

-- `_contact_points` is none once `on_up` has deleted the attribute.
pub record DcAware : Type 0 where
  pub local_dc : String
  pub used_hosts_per_remote_dc : ℕ
  pub dc_live_hosts : List (String × List Host)
  pub position : ℕ
  pub contact_points : Option (List String)

unfoldable pub init : String → ℕ → DcAware
init local_dc used = record {
  local_dc = local_dc;
  used_hosts_per_remote_dc = used;
  dc_live_hosts = [];
  position = 0;
  contact_points = some [];
}

-- `name or default`: None and the empty text are falsy.
unfoldable pub or_default : Option String → String → String
or_default none default = default
or_default (some name) default = if str_eq name "" then default else name

-- `_dc`
unfoldable pub dc_of : DcAware → Host → String
dc_of p h = or_default h.datacenter p.local_dc

-- `self._dc_live_hosts.get(dc, ())`
unfoldable pub listed : DcAware → String → List Host
listed p dc = lookup_or [] dc p.dc_live_hosts

-- `itertools.groupby`: only neighbours with one key fall into one group.
unfoldable pub add_to_group : String → Host → List (String × List Host) → List (String × List Host)
add_to_group dc h [] = (dc, h ∷ []) ∷ []
add_to_group dc h ((k, group) ∷ groups) =
    if str_eq k dc then (k, h ∷ group) ∷ groups else (dc, h ∷ []) ∷ (k, group) ∷ groups

unfoldable pub groupby : (Host → String) → List Host → List (String × List Host)
groupby key [] = []
groupby key (h ∷ hs) = add_to_group (key h) h (groupby key hs)

-- The loop of `populate`; `iteration` is the order in which Python iterates over a set.
unfoldable pub assign_groups :
    (List Host → List Host)
    → List (String × List Host)
    → List (String × List Host)
    → List (String × List Host)
assign_groups iteration [] d = d
assign_groups iteration ((dc, hosts) ∷ groups) d =
    assign_groups iteration groups (insert dc (iteration (frozenset hosts)) d)

-- `contact` is `cluster.contact_points_resolved`, `random` is `randint(0, len(hosts) - 1)`.
unfoldable pub populate : (List Host → List Host) → List String → ℕ → List Host → DcAware → DcAware
populate iteration contact random hosts p = record p {
  dc_live_hosts = assign_groups iteration (groupby (dc_of p) hosts) p.dc_live_hosts;
  contact_points = if str_eq p.local_dc "" then some contact else p.contact_points;
  position = if ltb 0 (length hosts) then random else 0;
}

unfoldable pub distance : DcAware → Host → HostDistance
distance p h =
    let dc = dc_of p h in
    if str_eq dc p.local_dc
    then local
    else if p.used_hosts_per_remote_dc == 0
    then ignored
    else if contains (take p.used_hosts_per_remote_dc (listed p dc)) h
    then remote
    else ignored

-- The loop over the data centers: `remote_live[:used_hosts_per_remote_dc]` for each but the local.
unfoldable pub remote_plan : DcAware → List String → List Host
remote_plan p [] = []
remote_plan p (dc ∷ dcs) =
    let rest = remote_plan p dcs in
    if str_eq dc p.local_dc then rest else take p.used_hosts_per_remote_dc (listed p dc) ++ rest

-- The hosts that the generator yields when nothing changes while it is consumed.
unfoldable pub make_query_plan : DcAware → List Host × DcAware
make_query_plan p =
    let local_live = listed p p.local_dc in
    let n = length local_live in
    let pos = if ltb 0 n then p.position % n else 0 in
    (
      cycle_slice local_live pos n ++ remote_plan p (keys p.dc_live_hosts),
      record p { position = p.position + 1 },
    )

-- `address in contact_points`
unfoldable pub address_in : String → List String → Bool
address_in a [] = false
address_in a (b ∷ bs) = str_eq b a || address_in a bs

-- The first part of `on_up`: none stands for the AttributeError of a deleted `_contact_points`.
unfoldable pub adopt_dc : DcAware → Host → Option (List String) → Option DcAware
adopt_dc p h none = none
adopt_dc p h (some contact_points) =
    if address_in h.address contact_points
    then some (record p { local_dc = or_default h.datacenter ""; contact_points = none })
    else some p

unfoldable pub infer_local_dc : DcAware → Host → Option DcAware
infer_local_dc p h =
    if str_eq p.local_dc "" && not (str_eq (or_default h.datacenter "") "")
    then adopt_dc p h p.contact_points
    else some p

-- The second part of `on_up`
unfoldable pub list_host : DcAware → Host → DcAware
list_host p h =
    let dc = dc_of p h in
    let current = listed p dc in
    if contains current h
    then p
    else record p { dc_live_hosts = insert dc (current ++ h ∷ []) p.dc_live_hosts }

unfoldable pub on_up : DcAware → Host → Option DcAware
on_up p h = elim (infer_local_dc p h) [ none ↦ none | some p' ↦ some (list_host p' h) ]

-- `if hosts: … = hosts` and `else: del …`
unfoldable pub store_hosts :
    String → List Host → List (String × List Host) → List (String × List Host)
store_hosts dc [] d = delete dc d
store_hosts dc (h ∷ hs) d = insert dc (h ∷ hs) d

unfoldable pub on_down : DcAware → Host → DcAware
on_down p h =
    let dc = dc_of p h in
    let current = listed p dc in
    if contains current h
    then record p { dc_live_hosts = store_hosts dc (difference current h) p.dc_live_hosts }
    else p

unfoldable pub notify : DcAware → HostEvent → Option DcAware
notify p (up h) = on_up p h
notify p (add h) = on_up p h
notify p (down h) = some (on_down p h)
notify p (remove h) = some (on_down p h)

unfoldable pub notify_all : DcAware → List HostEvent → Option DcAware
notify_all p [] = some p
notify_all p (e ∷ es) = elim (notify p e) [ none ↦ none | some p' ↦ notify_all p' es ]
