-- ===== src/Metadata.antt =====
-- The token map of cassandra/metadata.py: `TokenMap`, `SimpleStrategy.make_token_replica_map`, and the
-- parts of `Metadata` that keep the map up to date. Hosts are numbers.
pub mod Replicas
pub mod Lookup
pub mod Fresh
pub mod Cache
use python_driver.Prelude.{
  ℕ, zero, suc, ◌+◌, ◌-◌, ◌%◌, Bool, true, false, not, ltb, ◌==◌, Option, none, some, List, [], ◌∷◌,
  ◌++◌, String, if◌then◌else◌, length, get_elem?,
}
use python_driver.Prelude.Dict.{lookup, insert, delete}

-- `Token.__lt__` and `Token.__eq__` of a token class.
pub record Tokens (T : Type 0) : Type 0 where
  pub lt : T → T → Bool
  pub eq : T → T → Bool

-- A dict from tokens to replicas.
abbrev pub ReplicaMap : Type 0 → Type 0
ReplicaMap T = List (T × List ℕ)

-- A class of replication strategies: `make_token_replica_map`, none where it raises, and `__eq__`.
pub record Strategies (S T : Type 0) : Type 0 where
  pub make_token_replica_map : S → (T → ℕ) → List T → Option (ReplicaMap T)
  pub equal : S → S → Bool

-- `host in hosts`
unfoldable pub contains : ℕ → List ℕ → Bool
contains h [] = false
contains h (g ∷ hosts) = if g == h then true else contains h hosts

module _ {T : Type 0} where
  -- `bisect_right(ring, t)` on a sorted ring
  unfoldable pub bisect_right : Tokens T → List T → T → ℕ
  bisect_right o [] t = 0
  bisect_right o (x ∷ xs) t = let after = bisect_right o xs t in if o.lt t x then 0 else 1 + after

  -- `d[t]`, and `d[t] = hosts`
  unfoldable pub replicas_at : Tokens T → T → ReplicaMap T → Option (List ℕ)
  replicas_at o t [] = none
  replicas_at o t ((s, hosts) ∷ d) = if o.eq s t then some hosts else replicas_at o t d

  unfoldable pub put_replicas : Tokens T → T → List ℕ → ReplicaMap T → ReplicaMap T
  put_replicas o t hosts [] = (t, hosts) ∷ []
  put_replicas o t hosts ((s, old) ∷ d) =
      if o.eq s t then (s, hosts) ∷ d else (s, old) ∷ put_replicas o t hosts d

  unfoldable pub add_owner : (T → ℕ) → Option T → List ℕ → List ℕ
  add_owner owner none hosts = hosts
  add_owner owner (some t) hosts = if contains (owner t) hosts then hosts else hosts ++ owner t ∷ []

  -- The inner loop of `SimpleStrategy.make_token_replica_map`, with `left` tokens left to look at.
  unfoldable pub collect : (T → ℕ) → ℕ → List T → ℕ → ℕ → ℕ → List ℕ → List ℕ
  collect owner replication_factor ring i j zero hosts = hosts
  collect owner replication_factor ring i j (suc left) hosts =
      let token = get_elem? ring ((i + j) % length ring) in
      let rest =
        collect owner replication_factor ring i (j + 1) left (add_owner owner token hosts) in
      if ltb (length hosts) replication_factor then rest else hosts

  unfoldable pub hosts_from : (T → ℕ) → ℕ → List T → ℕ → List ℕ
  hosts_from owner replication_factor ring i =
      collect owner replication_factor ring i 0 (length ring) []

  -- The outer loop, from the index `i`.
  unfoldable pub fill : Tokens T → (T → ℕ) → ℕ → List T → ℕ → List T → ReplicaMap T → ReplicaMap T
  fill o owner replication_factor ring i [] d = d
  fill o owner replication_factor ring i (t ∷ ts) d =
      fill o owner replication_factor ring (i + 1) ts
        (put_replicas o t (hosts_from owner replication_factor ring i) d)

  -- `SimpleStrategy.make_token_replica_map`
  unfoldable pub make_simple_map : Tokens T → ℕ → (T → ℕ) → List T → ReplicaMap T
  make_simple_map o replication_factor owner ring = fill o owner replication_factor ring 0 ring []

  -- `SimpleStrategy`: a strategy is its replication factor.
  unfoldable pub simple_strategy : Tokens T → Strategies ℕ T
  simple_strategy o = record {
    make_token_replica_map = λ rf owner ring. some (make_simple_map o rf owner ring);
    equal = λ a b. a == b;
  }

  -- `tokens_to_hosts[ring[i]]`
  unfoldable pub replicas_of : Tokens T → ReplicaMap T → Option T → Option (List ℕ)
  replicas_of o d none = none
  replicas_of o d (some b) = replicas_at o b d

  -- The end of `get_replicas`, for the map of the keyspace; none is a KeyError or an IndexError.
  unfoldable pub answer_from : Tokens T → List T → T → Option (ReplicaMap T) → Option (List ℕ)
  answer_from o ring t none = some []
  answer_from o ring t (some []) = some []
  answer_from o ring t (some (entry ∷ d)) =
      let point = bisect_right o ring t in
      replicas_of o (entry ∷ d) (get_elem? ring (if point == length ring then 0 else point))

-- `TokenMap`; a keyspace without a strategy has the map None.
pub record TokenMap (T : Type 0) : Type 0 where
  pub ring : List T
  pub token_to_host_owner : T → ℕ
  pub tokens_to_hosts_by_ks : List (String × Option (ReplicaMap T))

-- `Metadata`: the strategy of each keyspace, None if it could not be created.
pub record Metadata (S T : Type 0) : Type 0 where
  pub keyspaces : List (String × Option S)
  pub token_map : Option (TokenMap T)

-- `d.get(k, None)` where the values may be None
unfoldable pub get_or_none {ℓ} : {A : Type ℓ} → String → List (String × Option A) → Option A
get_or_none k d = elim (lookup k d) [ none ↦ none | some v ↦ v ]

module _ {S T : Type 0} (strategies : Strategies S T) where
  -- The value that `rebuild_keyspace` stores: `replica_map_for_keyspace`, or {} if it raises.
  unfoldable pub replica_map_for : TokenMap T → Option S → Option (ReplicaMap T)
  replica_map_for m none = none
  replica_map_for m (some s) =
      elim (strategies.make_token_replica_map s m.token_to_host_owner m.ring) [
        | none ↦ some []
        | some d ↦ some d
      ]

  -- `rebuild_keyspace` with `build_if_absent`, where the keyspace is looked up in `keyspaces`.
  unfoldable pub rebuild_keyspace :
      List (String × Option S) → TokenMap T → String → Bool → TokenMap T
  rebuild_keyspace keyspaces m ks build_if_absent =
      let wanted : Bool = elim (get_or_none ks m.tokens_to_hosts_by_ks) [
        | none ↦ build_if_absent
        | some _ ↦ not build_if_absent
      ] in
      if wanted
      then (elim (lookup ks keyspaces) [
        | none ↦ m
        | some s ↦ record m {
          tokens_to_hosts_by_ks = insert ks (replica_map_for m s) m.tokens_to_hosts_by_ks;
        }
      ])
      else m

  -- `TokenMap.get_replicas`
  unfoldable pub get_replicas :
      Tokens T → List (String × Option S) → TokenMap T → String → T → Option (List ℕ) × TokenMap T
  get_replicas o keyspaces m ks t =
      let m' : TokenMap T = elim (get_or_none ks m.tokens_to_hosts_by_ks) [
        | none ↦ rebuild_keyspace keyspaces m ks true
        | some _ ↦ m
      ] in
      (answer_from o m.ring t (get_or_none ks m'.tokens_to_hosts_by_ks), m')

  -- `_keyspace_added` and `_keyspace_updated`, which are the same.
  unfoldable pub keyspace_updated : Metadata S T → String → Metadata S T
  keyspace_updated md ks = record md {
    token_map = elim md.token_map [
      | none ↦ none
      | some m ↦ some (rebuild_keyspace md.keyspaces m ks false)
    ];
  }

  -- `!=` of `replication_strategy`, which may be None
  unfoldable pub differ : Option S → Option S → Bool
  differ none none = false
  differ none (some t) = true
  differ (some s) none = true
  differ (some s) (some t) = not (strategies.equal s t)

  -- The end of `_update_keyspace`, where the keyspace had the strategy `old`, if it was there.
  unfoldable pub announce : Metadata S T → String → Option S → Option (Option S) → Metadata S T
  announce md ks s none = keyspace_updated md ks
  announce md ks s (some old) = if differ s old then keyspace_updated md ks else md

  -- `_update_keyspace`
  unfoldable pub update_keyspace : Metadata S T → String → Option S → Metadata S T
  update_keyspace md ks s =
      announce (record md { keyspaces = insert ks s md.keyspaces }) ks s (lookup ks md.keyspaces)

  -- `_keyspace_removed`, with `remove_keyspace`
  unfoldable pub keyspace_removed : Metadata S T → String → Metadata S T
  keyspace_removed md ks = record md {
    token_map = elim md.token_map [
      | none ↦ none
      | some m ↦ some (record m { tokens_to_hosts_by_ks = delete ks m.tokens_to_hosts_by_ks })
    ];
  }

  -- `_drop_keyspace`, where `popped` is what `self.keyspaces.pop` returns.
  unfoldable pub after_pop : Metadata S T → String → Option (Option S) → Metadata S T
  after_pop md ks none = md
  after_pop md ks (some s) = keyspace_removed (record md { keyspaces = delete ks md.keyspaces }) ks

  unfoldable pub drop_keyspace : Metadata S T → String → Metadata S T
  drop_keyspace md ks = after_pop md ks (lookup ks md.keyspaces)

  -- `Metadata.get_replicas`, for the token of the key
  unfoldable pub ask : Tokens T → Metadata S T → String → T → Option (List ℕ) × Metadata S T
  ask o md ks t = elim md.token_map [
    | none ↦ (some [], md)
    | some m ↦
        let (answer, m') = get_replicas o md.keyspaces m ks t in
        (answer, record md { token_map = some m' })
  ]
