-- ===== src/Metadata/Cache.antt =====
-- The cache of replica maps in Metadata.antt is never stale.
use python_driver.Prelude.{
  ℕ, ◌≡◌, refl, sym, ◌∙◌, ap, inl, inr, Bool, true, false, Option, none, some, List, [], ◌∷◌,
  String, str_eq, eq_iff, if◌then◌else◌, arith, Bool-cases, Option-cases,
}
use mathlib.Core.Path.{subst}
use python_driver.Prelude.Dict.{lookup, insert, delete}
use python_driver.Metadata.{
  Tokens, Strategies, TokenMap, Metadata, get_or_none, answer_from, replica_map_for,
  rebuild_keyspace, get_replicas, keyspace_updated, differ, announce, update_keyspace,
  keyspace_removed, after_pop, drop_keyspace, ask,
}
use python_driver.Metadata.Fresh.{
  lookup-delete, fresh, IsCongruent, FreshAt, IsFresh, get_or_none-insert, get_or_none-delete,
  stored-FreshAt, rebuild_keyspace-FreshAt, inserted, kept-FreshAt, fresh_equal,
}

-- What happens to the schema and the token map: a keyspace is created or altered, or dropped, or the
-- replicas of a token are asked for.
pub data Event (S T : Type 0) : Type 0 where
  updates : String → Option S → Event S T
  drops : String → Event S T
  asks : String → T → Event S T

module _ {S T : Type 0} (strategies : Strategies S T) where
  either-IsFresh :
      (b : Bool) (x y : Metadata S T)
      → IsFresh strategies x
      → (b ≡ false → IsFresh strategies y)
      → IsFresh strategies (if b then x else y)
  either-IsFresh true x y hx hy = hx
  either-IsFresh false x y hx hy = hy refl

  -- A rebuilt map after `ks` was given a strategy.
  rebuilt-IsFresh :
      (keyspaces : List (String × Option S)) (m : TokenMap T) (ks : String) (s : Option S)
      → ((j : String) → FreshAt strategies keyspaces m j)
      → (j : String)
      → FreshAt strategies
          (insert ks s keyspaces)
          (rebuild_keyspace strategies (insert ks s keyspaces) m ks false)
          j
  rebuilt-IsFresh keyspaces m ks s h j =
      rebuild_keyspace-FreshAt strategies (insert ks s keyspaces) m ks j s
        (inserted strategies keyspaces ks s)
        (λ other. kept-FreshAt strategies keyspaces m ks j s other (h j))

  module _ (same : IsCongruent strategies) where
    -- An equal strategy leaves the map as it is.
    equal-FreshAt :
        (keyspaces : List (String × Option S)) (m : TokenMap T) (ks : String) (s old : Option S)
        → lookup ks keyspaces ≡ some old
        → differ strategies s old ≡ false
        → ((j : String) → FreshAt strategies keyspaces m j)
        → (j : String) → FreshAt strategies (insert ks s keyspaces) m j
    equal-FreshAt keyspaces m ks s old e d h j = elim (Bool-cases (str_eq ks j)) [
      | inl at ↦
          subst (λ (k : String). FreshAt strategies (insert ks s keyspaces) m k)
            ((eq_iff ks j).0 at) (rw (fresh_equal strategies same keyspaces m ks s old e d) (h ks))
      | inr other ↦ kept-FreshAt strategies keyspaces m ks j s other (h j)
    ]

    announce-IsFresh :
        (keyspaces : List (String × Option S)) (token_map : Option (TokenMap T)) (ks : String)
        (s : Option S) (o : Option (Option S))
        → lookup ks keyspaces ≡ o
        → IsFresh strategies (record { keyspaces = keyspaces; token_map = token_map })
        → IsFresh strategies (
            announce strategies
              (record { keyspaces = insert ks s keyspaces; token_map = token_map })
              ks
              s
              o)
    unfolding announce keyspace_updated
    announce-IsFresh keyspaces none ks s none e h = tt
    announce-IsFresh keyspaces none ks s (some old) e h =
        either-IsFresh (differ strategies s old) _ _ tt (λ d. tt)
    announce-IsFresh keyspaces (some m) ks s none e h = rebuilt-IsFresh keyspaces m ks s h
    announce-IsFresh keyspaces (some m) ks s (some old) e h =
        either-IsFresh (differ strategies s old) _ _ (rebuilt-IsFresh keyspaces m ks s h)
          (λ d. equal-FreshAt keyspaces m ks s old e d h)

  after_pop-IsFresh :
      (keyspaces : List (String × Option S)) (token_map : Option (TokenMap T)) (ks : String)
      (o : Option (Option S))
      → IsFresh strategies (record { keyspaces = keyspaces; token_map = token_map })
      → IsFresh strategies
          (after_pop strategies (record { keyspaces = keyspaces; token_map = token_map }) ks o)
  unfolding after_pop keyspace_removed fresh get_or_none replica_map_for
  after_pop-IsFresh keyspaces token_map ks none h = h
  after_pop-IsFresh keyspaces none ks (some s) h = tt
  after_pop-IsFresh keyspaces (some m) ks (some s) h = λ j. elim (Bool-cases (str_eq ks j)) [
    | inl at ↦ inl (rw (get_or_none-delete strategies ks j m.tokens_to_hosts_by_ks, at))
    | inr other ↦
        let gone : lookup j (delete ks keyspaces) ≡ lookup j keyspaces =
          rw (lookup-delete ks j keyspaces, other) in
        rw (get_or_none-delete strategies ks j m.tokens_to_hosts_by_ks, other, fresh, gone) (h j)
  ]

  -- The map of `ks` that `get_replicas` answers from is what would be computed now.
  asked_map :
      (o : Tokens T) (keyspaces : List (String × Option S)) (m : TokenMap T) (ks : String) (t : T)
      → FreshAt strategies keyspaces m ks
      → get_or_none ks (get_replicas strategies o keyspaces m ks t).1.tokens_to_hosts_by_ks
        ≡ fresh strategies keyspaces m ks
  unfolding get_replicas rebuild_keyspace fresh
  asked_map o keyspaces m ks t h = elim (Option-cases (lookup ks keyspaces)) [
    | inl e ↦ ground (arith, e, h)
    | inr (s, e) ↦ ground (
      arith,
      e,
      h,
      get_or_none-insert strategies ks ks (replica_map_for strategies m s) m.tokens_to_hosts_by_ks,
      eq_iff ks ks,
    )
  ]

  asked :
      (o : Tokens T) (keyspaces : List (String × Option S)) (m : TokenMap T) (ks : String) (t : T)
      → FreshAt strategies keyspaces m ks
      → (get_replicas strategies o keyspaces m ks t).0
        ≡ answer_from o m.ring t (fresh strategies keyspaces m ks)
  unfolding get_replicas
  asked o keyspaces m ks t h = ap (answer_from o m.ring t) (asked_map o keyspaces m ks t h)

  asked-FreshAt :
      (o : Tokens T) (keyspaces : List (String × Option S)) (m : TokenMap T) (ks : String) (t : T)
      → ((j : String) → FreshAt strategies keyspaces m j)
      → (j : String) → FreshAt strategies keyspaces (get_replicas strategies o keyspaces m ks t).1 j
  unfolding get_replicas rebuild_keyspace
  asked-FreshAt o keyspaces m ks t h j =
      let from : (m' : TokenMap T)
          → (get_replicas strategies o keyspaces m ks t).1 ≡ m'
          → FreshAt strategies keyspaces m' j
          → FreshAt strategies keyspaces (get_replicas strategies o keyspaces m ks t).1 j =
        λ m' e. subst (λ (n : TokenMap T). FreshAt strategies keyspaces n j) (sym e) in
      elim (Option-cases (get_or_none ks m.tokens_to_hosts_by_ks)) [
        | inr (d, cached) ↦ from m (rw (get_replicas, cached) refl) (h j)
        | inl absent ↦ elim (Option-cases (lookup ks keyspaces)) [
          | inl missing ↦
              from m (rw (get_replicas, absent, rebuild_keyspace, missing, absent) refl) (h j)
          | inr (s, e) ↦
              from
                (record m {
                  tokens_to_hosts_by_ks =
                      insert ks (replica_map_for strategies m s) m.tokens_to_hosts_by_ks;
                })
                (rw (get_replicas, absent, rebuild_keyspace, e, absent) refl)
                (stored-FreshAt strategies keyspaces m ks j s e (λ _. h j))
        ]
      ]

  -- One event, and a sequence of events.
  unfoldable pub step : Tokens T → Metadata S T → Event S T → Metadata S T
  step o md (updates ks s) = update_keyspace strategies md ks s
  step o md (drops ks) = drop_keyspace strategies md ks
  step o md (asks ks t) = (ask strategies o md ks t).1

  unfoldable pub run : Tokens T → Metadata S T → List (Event S T) → Metadata S T
  run o md [] = md
  run o md (e ∷ es) = run o (step o md e) es

  module _ (same : IsCongruent strategies) (o : Tokens T) where
    ask-IsFresh :
        (keyspaces : List (String × Option S)) (token_map : Option (TokenMap T)) (ks : String)
        (t : T)
        → IsFresh strategies (record { keyspaces = keyspaces; token_map = token_map })
        → IsFresh strategies
            (ask strategies o (record { keyspaces = keyspaces; token_map = token_map }) ks t).1
    unfolding ask
    ask-IsFresh keyspaces none ks t h = tt
    ask-IsFresh keyspaces (some m) ks t h = asked-FreshAt o keyspaces m ks t h

    step-IsFresh :
        (md : Metadata S T) (e : Event S T)
        → IsFresh strategies md
        → IsFresh strategies (step o md e)
    unfolding step update_keyspace drop_keyspace
    step-IsFresh md (updates ks s) h =
        announce-IsFresh same md.keyspaces md.token_map ks s (lookup ks md.keyspaces) refl h
    step-IsFresh md (drops ks) h =
        after_pop-IsFresh md.keyspaces md.token_map ks (lookup ks md.keyspaces) h
    step-IsFresh md (asks ks t) h = ask-IsFresh md.keyspaces md.token_map ks t h

    run-IsFresh :
        (es : List (Event S T)) (md : Metadata S T)
        → IsFresh strategies md
        → IsFresh strategies (run o md es)
    unfolding run
    run-IsFresh [] md h = h
    run-IsFresh (e ∷ es) md h = run-IsFresh es (step o md e) (step-IsFresh md e h)

-- The metadata after `rebuild_token_map`: no map is computed yet.
unfoldable pub begin : {S T : Type 0} → List (String × Option S) → List T → (T → ℕ) → Metadata S T
begin keyspaces ring owner = record {
  keyspaces = keyspaces;
  token_map =
      some (record { ring = ring; token_to_host_owner = owner; tokens_to_hosts_by_ks = [] });
}

begin-IsFresh :
    {S T : Type 0} (strategies : Strategies S T) (keyspaces : List (String × Option S))
    (ring : List T) (owner : T → ℕ)
    → IsFresh strategies (begin keyspaces ring owner)
unfolding begin get_or_none lookup
begin-IsFresh strategies keyspaces ring owner ks = inl refl

-- Start from any keyspaces and a new token map, whose maps are not computed yet. Whatever keyspaces are
-- created, altered or dropped and whatever replicas are asked for, in any order, the replicas that are
-- then answered for a keyspace and a token are those that the keyspace's present strategy gives on the
-- ring: no map that `rebuild_keyspace` stored is stale. Equal strategies have to make equal maps.
pub answers_are_fresh :
    {S T : Type 0} (strategies : Strategies S T)
    → IsCongruent strategies
    → (o : Tokens T) (keyspaces : List (String × Option S)) (ring : List T) (owner : T → ℕ)
    → (es : List (Event S T)) (now : List (String × Option S)) (m : TokenMap T)
    → run strategies o (begin keyspaces ring owner) es
      ≡ record { keyspaces = now; token_map = some m }
    → (ks : String) (t : T)
    → (ask strategies o (run strategies o (begin keyspaces ring owner) es) ks t).0
      ≡ answer_from o m.ring t (fresh strategies now m ks)
answers_are_fresh {S} {T} strategies same o keyspaces ring owner es now m e ks t =
    let h : IsFresh strategies (record { keyspaces = now; token_map = some m }) =
      subst (IsFresh strategies) e (
        run-IsFresh strategies same o es (begin keyspaces ring owner)
          (begin-IsFresh strategies keyspaces ring owner)) in
    ap (λ (md : Metadata S T). (ask strategies o md ks t).0) e
    ∙ unfold ask in asked strategies o now m ks t (h ks)
