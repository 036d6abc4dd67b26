-- ===== src/Metadata/Fresh.antt =====
-- When a map that the token map of Metadata.antt keeps for a keyspace is fresh, and what keeps it so.
use python_driver.Prelude.{
  ◌≡◌, refl, sym, ◌∙◌, ap, ◌⊎◌, inl, inr, true, false, Option, none, some, List, [], ◌∷◌, String,
  str_eq, eq_iff, if◌then◌else◌, arith, Bool-cases, Option-cases,
}
use python_driver.Prelude.Dict.{lookup, insert, delete, lookup-insert}
use python_driver.Metadata.{
  ReplicaMap, Strategies, TokenMap, Metadata, get_or_none, replica_map_for, rebuild_keyspace,
  differ,
}

pub lookup-delete {ℓ} :
    {V : Type ℓ} (k j : String) (d : List (String × V))
    → lookup j (delete k d) ≡ (if str_eq k j then none else lookup j d)
unfolding lookup delete
lookup-delete k j [] = ground arith
lookup-delete k j ((i, w) ∷ d) =
    ground (arith, lookup-delete k j d, eq_iff k j, eq_iff i k, eq_iff i j)

module _ {S T : Type 0} (strategies : Strategies S T) where
  -- What a keyspace's map would be if it was computed now.
  unfoldable pub fresh : List (String × Option S) → TokenMap T → String → Option (ReplicaMap T)
  fresh keyspaces m ks = elim (lookup ks keyspaces) [
    | none ↦ none
    | some s ↦ replica_map_for strategies m s
  ]

  -- Equal strategies make the same maps.
  abbrev pub IsCongruent : Type 0
  IsCongruent =
      (a b : S)
      → strategies.equal a b ≡ true
      → strategies.make_token_replica_map a ≡ strategies.make_token_replica_map b

  abbrev pub FreshAt : List (String × Option S) → TokenMap T → String → Type 0
  FreshAt keyspaces m ks =
      (get_or_none ks m.tokens_to_hosts_by_ks ≡ none)
      ⊎ (get_or_none ks m.tokens_to_hosts_by_ks ≡ fresh keyspaces m ks)

  -- Every map that is cached is what would be computed now.
  abbrev pub IsFresh : Metadata S T → Type 0
  IsFresh md = elim md.token_map [
    | none ↦ Unit
    | some m ↦ (ks : String) → FreshAt md.keyspaces m ks
  ]

  pub get_or_none-insert :
      {A : Type 0} (k j : String) (v : Option A) (d : List (String × Option A))
      → get_or_none j (insert k v d) ≡ (if str_eq k j then v else get_or_none j d)
  unfolding get_or_none
  get_or_none-insert k j v d = ground (arith, lookup-insert k j v d)

  pub get_or_none-delete :
      {A : Type 0} (k j : String) (d : List (String × Option A))
      → get_or_none j (delete k d) ≡ (if str_eq k j then none else get_or_none j d)
  unfolding get_or_none
  get_or_none-delete k j d = ground (arith, lookup-delete k j d)

  -- Storing the map of `ks` makes it fresh and leaves the others.
  pub stored-FreshAt :
      (keyspaces : List (String × Option S)) (m : TokenMap T) (ks j : String) (s : Option S)
      → lookup ks keyspaces ≡ some s
      → (str_eq ks j ≡ false → FreshAt keyspaces m j)
      → FreshAt keyspaces
          (record m {
            tokens_to_hosts_by_ks =
                insert ks (replica_map_for strategies m s) m.tokens_to_hosts_by_ks;
          })
          j
  unfolding fresh replica_map_for
  stored-FreshAt keyspaces m ks j s e others = ground (
    arith,
    get_or_none-insert ks j (replica_map_for strategies m s) m.tokens_to_hosts_by_ks,
    eq_iff ks j,
  )

  pub rebuild_keyspace-FreshAt :
      (keyspaces : List (String × Option S)) (m : TokenMap T) (ks j : String) (s : Option S)
      → lookup ks keyspaces ≡ some s
      → (str_eq ks j ≡ false → FreshAt keyspaces m j)
      → FreshAt keyspaces (rebuild_keyspace strategies keyspaces m ks false) j
  unfolding rebuild_keyspace
  rebuild_keyspace-FreshAt keyspaces m ks j s e others =
      elim (Option-cases (get_or_none ks m.tokens_to_hosts_by_ks)) [
        | inl absent ↦ rw absent (elim (Bool-cases (str_eq ks j)) [
          | inl same ↦ inl (
              ap (λ (k : String). get_or_none k m.tokens_to_hosts_by_ks)
                (sym ((eq_iff ks j).0 same))
              ∙ absent)
          | inr other ↦ others other
        ])
        | inr (d, cached) ↦ rw (cached, e) (stored-FreshAt keyspaces m ks j s e others)
      ]

  -- Another keyspace's entry does not count.
  fresh-insert :
      (keyspaces : List (String × Option S)) (m : TokenMap T) (ks j : String) (s : Option S)
      → str_eq ks j ≡ false
      → fresh (insert ks s keyspaces) m j ≡ fresh keyspaces m j
  unfolding fresh
  fresh-insert keyspaces m ks j s other =
      let kept : lookup j (insert ks s keyspaces) ≡ lookup j keyspaces =
        rw (lookup-insert ks j s keyspaces, other) in
      rw (fresh, kept)

  pub inserted :
      (keyspaces : List (String × Option S)) (ks : String) (s : Option S)
      → lookup ks (insert ks s keyspaces) ≡ some s
  inserted keyspaces ks s = rw (lookup-insert ks ks s keyspaces, (eq_iff ks ks).1 refl)

  pub kept-FreshAt :
      (keyspaces : List (String × Option S)) (m : TokenMap T) (ks j : String) (s : Option S)
      → str_eq ks j ≡ false
      → FreshAt keyspaces m j
      → FreshAt (insert ks s keyspaces) m j
  kept-FreshAt keyspaces m ks j s other h = rw (fresh-insert keyspaces m ks j s other) h

  -- A strategy that is equal to the one before leaves what would be computed.
  pub fresh_equal :
      IsCongruent
      → (keyspaces : List (String × Option S)) (m : TokenMap T) (ks : String) (s old : Option S)
      → lookup ks keyspaces ≡ some old
      → differ strategies s old ≡ false
      → fresh (insert ks s keyspaces) m ks ≡ fresh keyspaces m ks
  unfolding fresh differ replica_map_for
  fresh_equal same keyspaces m ks none none e d = rw (fresh, inserted keyspaces ks none, e)
  fresh_equal same keyspaces m ks none (some t) e d = absurd (ground arith)
  fresh_equal same keyspaces m ks (some s) none e d = absurd (ground arith)
  fresh_equal same keyspaces m ks (some s) (some t) e d =
      let equal : strategies.make_token_replica_map s ≡ strategies.make_token_replica_map t =
        same s t (ground arith) in
      rw (fresh, inserted keyspaces ks (some s), e, replica_map_for, equal)
