-- ===== src/Policies/DcAware/Events.antt =====
-- The listener calls of Policies/DcAware.antt: they raise nothing, keep the invariant, and list a
-- host as long as the calls say that it is up.
use python_driver.Prelude.{
  ◌≡◌, refl, ap, ◌∙◌, String, Bool, true, false, not, ◌&&◌, ◌||◌, Option, none, some, List, [], ◌∷◌,
  arith, if◌then◌else◌, str_eq, eq_iff, All, Bool-cases, inl, inr,
}
use python_driver.Policies.Hosts.{Host, host_eq, contains, occurs, is_used}
use python_driver.Policies.Hosts.Sets.{contains-occurs}
use python_driver.Policies.RoundRobin.{HostEvent, up, down, add, remove}
use python_driver.Policies.RoundRobin.Plans.{is_live_next, is_live_after}
use python_driver.Policies.DcAware.{
  DcAware, or_default, dc_of, listed, infer_local_dc, list_host, on_up, on_down, notify, notify_all,
  adopt_dc, distance, make_query_plan, address_in,
}
use python_driver.Policies.DcAware.Placed.{
  IsPlaced, Agrees, is_some, occurs-on_down, occurs-list_host, on_down-IsPlaced, list_host-IsPlaced,
  unchanged_dc, on_down-local_dc, list_host-local_dc,
}
use python_driver.Policies.DcAware.Plans.{plan_of_distance}

abbrev pub event_host : HostEvent → Host
event_host (up h) = h
event_host (down h) = h
event_host (add h) = h
event_host (remove h) = h

-- If the call is about the address of `j`, it names the data center of `j`.
abbrev pub IsAbout : Host → HostEvent → Type 0
IsAbout j e = host_eq (event_host e) j ≡ true → (event_host e).datacenter ≡ j.datacenter

same_dc_agree :
    (p : DcAware) (h j : Host) → (host_eq h j ≡ true → h.datacenter ≡ j.datacenter) → Agrees p h j
unfolding dc_of
same_dc_agree p h j same e = rw (same e)

-- A host with a data center of its own stays in it when the local one becomes known.
dc_of_located :
    (p q : DcAware) (j : Host)
    → str_eq p.local_dc "" ≡ true
    → str_eq (dc_of p j) "" ≡ false
    → dc_of q j ≡ dc_of p j
unfolding dc_of or_default
dc_of_located p q j e l = ground (arith, eq_iff p.local_dc "")

record Inferred (p : DcAware) (j : Host) (p' : DcAware) : Type 0 where
  placed : IsPlaced p' j
  same_dc : dc_of p' j ≡ dc_of p j
  same_hosts : p'.dc_live_hosts ≡ p.dc_live_hosts

Inferred-refl : (p : DcAware) (j : Host) → IsPlaced p j → Inferred p j p
Inferred-refl p j placed = record { placed = placed; same_dc = refl; same_hosts = refl }

Inferred-local_dc :
    (p : DcAware) (j : Host) (dc : String)
    → IsPlaced p j
    → str_eq p.local_dc "" ≡ true
    → str_eq dc "" ≡ false
    → Inferred p j (record p { local_dc = dc; contact_points = none })
Inferred-local_dc p j dc placed e n =
    let p' : DcAware = record p { local_dc = dc; contact_points = none } in
    let same : dc_of p' j ≡ dc_of p j = dc_of_located p p' j e placed.located in
    record {
      placed = record {
        dict = placed.dict;
        own_dc = λ k. rw same (unfold listed in placed.own_dc k);
        located = rw same placed.located;
        contacts = rw n;
      };
      same_dc = same;
      same_hosts = refl;
    }

module _ (p : DcAware) (h j : Host) (placed : IsPlaced p j) where
  adopt_dc-Inferred :
      (o : Option (List String))
      → is_some o ≡ true
      → str_eq p.local_dc "" ≡ true
      → str_eq (or_default h.datacenter "") "" ≡ false
      → (p' : DcAware) × (adopt_dc p h o ≡ some p') × Inferred p j p'
  unfolding adopt_dc
  adopt_dc-Inferred none s e n = cc
  adopt_dc-Inferred (some cps) s e n = elim (Bool-cases (address_in h.address cps)) [
    | inl here ↦ (_, rw here, Inferred-local_dc p j (or_default h.datacenter "") placed e n)
    | inr other ↦ (p, rw other, Inferred-refl p j placed)
  ]

  infer_local_dc-Inferred : (p' : DcAware) × (infer_local_dc p h ≡ some p') × Inferred p j p'
  unfolding infer_local_dc
  infer_local_dc-Inferred = elim (Bool-cases (str_eq p.local_dc "")) [
    | inr known ↦ (p, rw known, Inferred-refl p j placed)
    | inl open_dc ↦ elim (Bool-cases (str_eq (or_default h.datacenter "") "")) [
      | inl unnamed ↦ (p, rw (open_dc, unnamed), Inferred-refl p j placed)
      | inr named ↦
          rw (open_dc, named)
            (adopt_dc-Inferred p.contact_points (ground (arith, placed.contacts)) open_dc named)
    ]
  ]

-- What a listener call about any host does for the host `j`.
record Heard (e : HostEvent) (j : Host) (p p' : DcAware) : Type 0 where
  placed : IsPlaced p' j
  live : contains (listed p' (dc_of p' j)) j ≡ is_live_next (contains (listed p (dc_of p j)) j) e j

listed_cong :
    (p q : DcAware) (dc : String) → p.dc_live_hosts ≡ q.dc_live_hosts → listed p dc ≡ listed q dc
unfolding listed
listed_cong p q dc e = rw e

module _ (p : DcAware) (h j : Host) (placed : IsPlaced p j)
    (same : host_eq h j ≡ true → h.datacenter ≡ j.datacenter) where
  on_down-live :
      contains (listed (on_down p h) (dc_of (on_down p h) j)) j
      ≡ (not (host_eq h j) && contains (listed p (dc_of p j)) j)
  on_down-live = rw (unchanged_dc p (on_down p h) j (on_down-local_dc p h).0) (
      ground (
        arith,
        occurs-on_down p h j placed (same_dc_agree p h j same) (dc_of p j),
        contains-occurs j (listed (on_down p h) (dc_of p j)),
        contains-occurs j (listed p (dc_of p j)),
      ))

  list_host-live :
      contains (listed (list_host p h) (dc_of (list_host p h) j)) j
      ≡ (host_eq h j || contains (listed p (dc_of p j)) j)
  list_host-live = rw (unchanged_dc p (list_host p h) j (list_host-local_dc p h).0) (
      ground (
        arith,
        occurs-list_host p h j placed (same_dc_agree p h j same) (dc_of p j),
        contains-occurs j (listed (list_host p h) (dc_of p j)),
        contains-occurs j (listed p (dc_of p j)),
        same_dc_agree p h j same,
        eq_iff (dc_of p h) (dc_of p j),
      ))

on_up-Heard :
    (p : DcAware) (h j : Host)
    → IsPlaced p j
    → (host_eq h j ≡ true → h.datacenter ≡ j.datacenter)
    → (p' : DcAware) × (on_up p h ≡ some p')
      × IsPlaced p' j
      × (contains (listed p' (dc_of p' j)) j ≡ (host_eq h j || contains (listed p (dc_of p j)) j))
unfolding on_up
on_up-Heard p h j placed same =
    let (q, known, inferred) = infer_local_dc-Inferred p h j placed in
    (
      list_host q h,
      rw (known, on_up),
      list_host-IsPlaced q h j inferred.placed (same_dc_agree q h j same),
      list_host-live q h j inferred.placed same
          ∙ ap (λ (hs : List Host). host_eq h j || contains hs j)
              (ap (listed q) inferred.same_dc ∙ listed_cong q p (dc_of p j) inferred.same_hosts),
    )

notify-Heard :
    (e : HostEvent) (p : DcAware) (j : Host)
    → IsPlaced p j
    → IsAbout j e
    → (p' : DcAware) × (notify p e ≡ some p') × Heard e j p p'
unfolding notify is_live_next
notify-Heard (up h) p j placed same =
    let (q, heard, placed', live) = on_up-Heard p h j placed same in
    (q, heard, record { placed = placed'; live = live })
notify-Heard (add h) p j placed same =
    let (q, heard, placed', live) = on_up-Heard p h j placed same in
    (q, heard, record { placed = placed'; live = live })
notify-Heard (down h) p j placed same = (
  on_down p h,
  refl,
  record {
    placed = on_down-IsPlaced p h j placed (same_dc_agree p h j same);
    live = on_down-live p h j placed same;
  },
)
notify-Heard (remove h) p j placed same = (
  on_down p h,
  refl,
  record {
    placed = on_down-IsPlaced p h j placed (same_dc_agree p h j same);
    live = on_down-live p h j placed same;
  },
)

notify_all-lists :
    (es : List HostEvent) (p : DcAware) (j : Host)
    → IsPlaced p j
    → All (IsAbout j) es
    → (p' : DcAware) × (notify_all p es ≡ some p')
      × IsPlaced p' j
      × (contains (listed p' (dc_of p' j)) j
          ≡ is_live_after (contains (listed p (dc_of p j)) j) es j)
unfolding notify_all is_live_after
notify_all-lists [] p j placed about = (p, refl, placed, refl)
notify_all-lists (e ∷ es) p j placed about =
    let (q, heard, h) = notify-Heard e p j placed about.0 in
    let (r, rest, placed', live) = notify_all-lists es q j h.placed about.1 in
    (r, rw (heard, notify_all) rest, placed', live ∙ ap (λ b. is_live_after b es j) h.live)

-- From any policy state that lists a host once at most and under its own data center, listener
-- calls in any order raise nothing and keep it so, and a query plan afterwards has the host exactly
-- once if by those calls it is live and its distance is not IGNORED, and not at all otherwise. The
-- calls about the host name its data center, and the host has one or the local one is known.
pub plan_after_calls :
    (es : List HostEvent) (p : DcAware) (j : Host)
    → IsPlaced p j
    → All (IsAbout j) es
    → (p' : DcAware) × (notify_all p es ≡ some p')
      × IsPlaced p' j
      × (occurs j (make_query_plan p').0 ≡ (
          if is_used (distance p' j) && is_live_after (contains (listed p (dc_of p j)) j) es j
          then 1
          else 0))
plan_after_calls es p j placed about =
    let (q, heard, placed', live) = notify_all-lists es p j placed about in
    (
      q,
      heard,
      placed',
      plan_of_distance q j placed'
          ∙ ap (λ (b : Bool). if is_used (distance q j) && b then 1 else 0) live,
    )
