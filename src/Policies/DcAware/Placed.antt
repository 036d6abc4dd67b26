-- ===== src/Policies/DcAware/Placed.antt =====
-- The invariant of Policies/DcAware.antt: a host is listed once at most, under its own data center.
use python_driver.Prelude.{
  ◌≤◌, ◌≡◌, String, Bool, true, false, not, ◌&&◌, Option, none, some, List, [], ◌∷◌, ◌++◌, arith,
  if◌then◌else◌, str_eq, eq_iff,
}
use python_driver.Prelude.Dict.{
  lookup_or, lookup_or-insert, lookup_or-delete, IsDict, insert-IsDict, delete-IsDict,
}
use python_driver.Policies.Hosts.{Host, host_eq, contains, occurs, difference}
use python_driver.Policies.Hosts.Sets.{
  contains-occurs, contains_cong, occurs-append, occurs-difference,
}
use python_driver.Policies.DcAware.{DcAware, dc_of, listed, list_host, on_down, store_hosts}

abbrev pub is_some : Option (List String) → Bool
is_some none = false
is_some (some _) = true

-- `contacts`: the attribute `_contact_points` is there as long as it may be read.
pub record IsPlaced (p : DcAware) (j : Host) : Type 0 where
  pub dict : IsDict p.dc_live_hosts
  pub own_dc : (dc : String) → occurs j (listed p dc) ≤ (if str_eq dc (dc_of p j) then 1 else 0)
  pub located : str_eq (dc_of p j) "" ≡ false
  pub contacts : (if str_eq p.local_dc "" then is_some p.contact_points else true) ≡ true

lookup_or-store_hosts :
    (dc k : String) (hs : List Host) (d : List (String × List Host))
    → lookup_or [] k (store_hosts dc hs d) ≡ (if str_eq dc k then hs else lookup_or [] k d)
unfolding store_hosts
lookup_or-store_hosts dc k [] d = lookup_or-delete [] dc k d
lookup_or-store_hosts dc k (h ∷ hs) d = lookup_or-insert [] dc k (h ∷ hs) d

store_hosts-IsDict :
    (dc : String) (hs : List Host) (d : List (String × List Host))
    → IsDict d
    → IsDict (store_hosts dc hs d)
unfolding store_hosts
store_hosts-IsDict dc [] d h = delete-IsDict dc d h
store_hosts-IsDict dc (x ∷ hs) d h = insert-IsDict dc (x ∷ hs) d h

-- The host `h` is `j` only if both are of one data center.
abbrev pub Agrees : DcAware → Host → Host → Type 0
Agrees p h j = host_eq h j ≡ true → dc_of p h ≡ dc_of p j

module _ (p : DcAware) (h : Host) where
  listed-on_down :
      (dc : String)
      → listed (on_down p h) dc ≡ (
          if contains (listed p (dc_of p h)) h && str_eq (dc_of p h) dc
          then difference (listed p (dc_of p h)) h
          else listed p dc)
  unfolding on_down listed
  listed-on_down dc = ground (
    arith,
    lookup_or-store_hosts (dc_of p h) dc (difference (listed p (dc_of p h)) h) p.dc_live_hosts,
  )

  listed-list_host :
      (dc : String)
      → listed (list_host p h) dc ≡ (
          if not (contains (listed p (dc_of p h)) h) && str_eq (dc_of p h) dc
          then listed p (dc_of p h) ++ h ∷ []
          else listed p dc)
  unfolding list_host listed
  listed-list_host dc =
      ground
        (arith, lookup_or-insert [] (dc_of p h) dc (listed p (dc_of p h) ++ h ∷ []) p.dc_live_hosts)

pub unchanged_dc : (p q : DcAware) (j : Host) → q.local_dc ≡ p.local_dc → dc_of q j ≡ dc_of p j
unfolding dc_of
unchanged_dc p q j e = rw e

pub on_down-local_dc :
    (p : DcAware) (h : Host)
    → ((on_down p h).local_dc ≡ p.local_dc) × ((on_down p h).contact_points ≡ p.contact_points)
unfolding on_down
on_down-local_dc p h = ground arith

pub list_host-local_dc :
    (p : DcAware) (h : Host)
    → ((list_host p h).local_dc ≡ p.local_dc) × ((list_host p h).contact_points ≡ p.contact_points)
unfolding list_host
list_host-local_dc p h = ground arith

on_down-IsDict :
    (p : DcAware) (h : Host) → IsDict p.dc_live_hosts → IsDict (on_down p h).dc_live_hosts
unfolding on_down
on_down-IsDict p h d k = ground (
  arith,
  d k,
  store_hosts-IsDict (dc_of p h) (difference (listed p (dc_of p h)) h) p.dc_live_hosts d k,
)

list_host-IsDict :
    (p : DcAware) (h : Host) → IsDict p.dc_live_hosts → IsDict (list_host p h).dc_live_hosts
unfolding list_host
list_host-IsDict p h d k =
    ground
      (arith, d k, insert-IsDict (dc_of p h) (listed p (dc_of p h) ++ h ∷ []) p.dc_live_hosts d k)

module _ (p : DcAware) (h j : Host) (placed : IsPlaced p j) (agrees : Agrees p h j) where
  pub occurs-on_down :
      (dc : String)
      → occurs j (listed (on_down p h) dc) ≡ (if host_eq h j then 0 else occurs j (listed p dc))
  occurs-on_down dc = ground (
    arith,
    listed-on_down p h dc,
    occurs-difference (listed p (dc_of p h)) h j,
    placed.own_dc dc,
    eq_iff (dc_of p h) dc,
    eq_iff dc (dc_of p j),
    agrees,
    contains-occurs h (listed p (dc_of p h)),
    contains-occurs j (listed p (dc_of p h)),
    contains_cong h j (listed p (dc_of p h)),
  )

  pub occurs-list_host :
      (dc : String)
      → occurs j (listed (list_host p h) dc)
        ≡ (if host_eq h j && str_eq (dc_of p h) dc then 1 else occurs j (listed p dc))
  unfolding occurs
  occurs-list_host dc = ground (
    arith,
    listed-list_host p h dc,
    occurs-append j (listed p (dc_of p h)) (h ∷ []),
    placed.own_dc dc,
    eq_iff (dc_of p h) dc,
    eq_iff dc (dc_of p j),
    agrees,
    contains-occurs j (listed p (dc_of p h)),
    contains_cong h j (listed p (dc_of p h)),
  )

  pub on_down-IsPlaced : IsPlaced (on_down p h) j
  on_down-IsPlaced = record {
    dict = on_down-IsDict p h placed.dict;
    own_dc = λ dc.
        rw (unchanged_dc p (on_down p h) j (on_down-local_dc p h).0)
          (ground (arith, occurs-on_down dc, placed.own_dc dc));
    located = rw (unchanged_dc p (on_down p h) j (on_down-local_dc p h).0) placed.located;
    contacts = rw ((on_down-local_dc p h).0, (on_down-local_dc p h).1) placed.contacts;
  }

  pub list_host-IsPlaced : IsPlaced (list_host p h) j
  list_host-IsPlaced = record {
    dict = list_host-IsDict p h placed.dict;
    own_dc = λ dc. rw (unchanged_dc p (list_host p h) j (list_host-local_dc p h).0) (
        ground (
          arith,
          occurs-list_host dc,
          placed.own_dc dc,
          agrees,
          eq_iff (dc_of p h) dc,
          eq_iff dc (dc_of p j),
        ));
    located = rw (unchanged_dc p (list_host p h) j (list_host-local_dc p h).0) placed.located;
    contacts = rw ((list_host-local_dc p h).0, (list_host-local_dc p h).1) placed.contacts;
  }
