-- ===== src/Policies/Hosts/Sets.antt =====
-- Laws of the host sets of Policies/Hosts.antt, in terms of membership and of how often an address
-- occurs.
use python_driver.Prelude.{
  ℕ, suc, ◌+◌, ◌≤◌, ◌≡◌, refl, true, not, ◌||◌, ◌&&◌, List, [], ◌∷◌, ◌++◌, arith, take, zero, leb,
  if◌then◌else◌, eq_iff,
}
use python_driver.Policies.Hosts.{
  Host, host_eq, contains, occurs, union, difference, set_from, frozenset,
}

-- No two hosts of the list have one address.
abbrev pub IsDistinct : List Host → Type 0
IsDistinct hs = (j : Host) → occurs j hs ≤ 1

pub occurs-append : (j : Host) (xs ys : List Host) → occurs j (xs ++ ys) ≡ occurs j xs + occurs j ys
unfolding occurs
occurs-append j [] ys = omega arith
occurs-append j (x ∷ xs) ys = omega (arith, occurs-append j xs ys)

pub contains-occurs : (j : Host) (xs : List Host) → contains xs j ≡ leb 1 (occurs j xs)
unfolding contains occurs
contains-occurs j [] = refl
contains-occurs j (x ∷ xs) = ground (arith, contains-occurs j xs)

pub contains-append :
    (j : Host) (xs ys : List Host) → contains (xs ++ ys) j ≡ (contains xs j || contains ys j)
unfolding contains
contains-append j [] ys = refl
contains-append j (x ∷ xs) ys = ground (arith, contains-append j xs ys)

pub contains_cong :
    (h j : Host) (xs : List Host) → host_eq h j ≡ true → contains xs h ≡ contains xs j
unfolding contains
contains_cong h j [] e = refl
contains_cong h j (x ∷ xs) e = ground (
  arith,
  contains_cong h j xs,
  eq_iff h.address j.address,
  eq_iff x.address h.address,
  eq_iff x.address j.address,
)

pub contains-union :
    (xs : List Host) (h j : Host) → contains (union xs h) j ≡ (host_eq h j || contains xs j)
unfolding union contains
contains-union xs h j = ground (arith, contains-append j xs (h ∷ []), contains_cong h j xs)

pub occurs-union :
    (xs : List Host) (h j : Host)
    → occurs j (union xs h)
      ≡ (if host_eq h j then (if contains xs h then occurs j xs else 1) else occurs j xs)
unfolding union occurs
occurs-union xs h j =
    ground (arith, occurs-append j xs (h ∷ []), contains-occurs j xs, contains_cong h j xs)

pub union-IsDistinct : (xs : List Host) (h : Host) → IsDistinct xs → IsDistinct (union xs h)
union-IsDistinct xs h d j = ground (arith, occurs-union xs h j, d j)

pub occurs-difference :
    (xs : List Host) (h j : Host)
    → occurs j (difference xs h) ≡ (if host_eq h j then 0 else occurs j xs)
unfolding difference occurs
occurs-difference [] h j = ground arith
occurs-difference (x ∷ xs) h j = ground (
  arith,
  occurs-difference xs h j,
  eq_iff h.address j.address,
  eq_iff x.address h.address,
  eq_iff x.address j.address,
)

pub contains-difference :
    (xs : List Host) (h j : Host)
    → contains (difference xs h) j ≡ (not (host_eq h j) && contains xs j)
contains-difference xs h j =
    ground
      (arith, contains-occurs j (difference xs h), contains-occurs j xs, occurs-difference xs h j)

pub difference-IsDistinct :
    (xs : List Host) (h : Host) → IsDistinct xs → IsDistinct (difference xs h)
difference-IsDistinct xs h d j = ground (arith, occurs-difference xs h j, d j)

pub contains-set_from :
    (seen hs : List Host) (j : Host)
    → contains (set_from seen hs) j ≡ (contains seen j || contains hs j)
unfolding set_from contains
contains-set_from seen [] j = ground arith
contains-set_from seen (h ∷ hs) j =
    ground (arith, contains-set_from (union seen h) hs j, contains-union seen h j)

set_from-IsDistinct : (seen hs : List Host) → IsDistinct seen → IsDistinct (set_from seen hs)
unfolding set_from
set_from-IsDistinct seen [] d = d
set_from-IsDistinct seen (h ∷ hs) d =
    set_from-IsDistinct (union seen h) hs (union-IsDistinct seen h d)

pub contains-frozenset : (hs : List Host) (j : Host) → contains (frozenset hs) j ≡ contains hs j
unfolding frozenset contains
contains-frozenset hs j = contains-set_from [] hs j

pub frozenset-IsDistinct : (hs : List Host) → IsDistinct (frozenset hs)
unfolding frozenset occurs
frozenset-IsDistinct hs = set_from-IsDistinct [] hs (λ j. omega arith)

pub occurs-take-le : (n : ℕ) (xs : List Host) (j : Host) → occurs j (take n xs) ≤ occurs j xs
unfolding occurs
occurs-take-le zero xs j = omega arith
occurs-take-le (suc n) [] j = omega arith
occurs-take-le (suc n) (x ∷ xs) j = omega (arith, occurs-take-le n xs j)
