-- ===== src/Tests/Metadata.antt =====
-- Tests of Metadata.
use python_driver.Prelude.{
  ℕ, ◌≤◌, ◌≡◌, refl, ap, ◌⊎◌, inl, true, false, ltb, ◌==◌, ==_iff, none, some, List, [], ◌∷◌, arith,
  length, get_elem?, All,
}
use python_driver.Metadata
use python_driver.Metadata.Cache
use python_driver.Prelude.Dict
use python_driver.Metadata.{
  Tokens, TokenMap, Metadata, contains, make_simple_map, answer_from, simple_strategy, ask,
}
use python_driver.Metadata.Replicas.{occurs}
use python_driver.Metadata.Lookup.{IsOrder, Sorted, answer_from-make_simple_map}
use python_driver.Metadata.Cache.{Event, updates, drops, asks, run, begin, answers_are_fresh}
use python_driver.Metadata.Fresh.{fresh, IsCongruent}

abbrev numbers : Tokens ℕ
numbers = record { lt = λ a b. ltb a b; eq = λ a b. a == b }

numbers-IsOrder : IsOrder numbers
numbers-IsOrder = record { eq_iff = λ a b. ==_iff a b; lt_irrefl = λ a. ground arith }

abbrev ring : List ℕ
ring = 10 ∷ 20 ∷ 30 ∷ []

abbrev replication_factor : ℕ
replication_factor = 2

-- Host 1 owns the tokens 10 and 30, host 2 the token 20.
abbrev owner : ℕ → ℕ
owner t = elim (t == 20) [ true ↦ 2 | false ↦ 1 ]

ring-Sorted : Sorted numbers ring
ring-Sorted = ((refl, (refl, tt)), ((refl, tt), (tt, tt)))

answer_from-make_simple_map_example :
    (hosts : List ℕ) × (answer_from numbers ring 25
        (some (make_simple_map numbers replication_factor owner ring))
      ≡ some hosts)
    × ((h : ℕ) → occurs h hosts ≤ 1)
    × (length hosts ≤ replication_factor)
    × ((length hosts ≡ replication_factor) ⊎ All (λ y. contains (owner y) hosts ≡ true) ring)
    × ((replication_factor ≡ 0) ⊎ (get_elem? hosts 0 ≡ some (owner 30)))
answer_from-make_simple_map_example =
    answer_from-make_simple_map numbers numbers-IsOrder owner replication_factor ring ring-Sorted 25
      2 30 refl (inl ((refl, (refl, tt)), (30, refl, refl)))

metadata_program : Unit {0}
unfolding Metadata.bisect_right Metadata.replicas_at Metadata.put_replicas contains
    Metadata.add_owner Metadata.collect Metadata.hosts_from Metadata.fill make_simple_map
    simple_strategy Metadata.replicas_of answer_from Metadata.get_or_none Metadata.replica_map_for
    Metadata.rebuild_keyspace Metadata.get_replicas Metadata.keyspace_updated Metadata.differ
    Metadata.announce Metadata.update_keyspace Metadata.keyspace_removed Metadata.after_pop
    Metadata.drop_keyspace ask Dict.lookup Dict.insert Dict.delete fresh Cache.step run begin
metadata_program = tt

replicas_of_25 :
    answer_from numbers ring 25 (some (make_simple_map numbers 2 owner ring)) ≡ some (1 ∷ 2 ∷ [])
unfolding metadata_program
replicas_of_25 = refl

abbrev events : List (Event ℕ ℕ)
events = asks "ks" 25 ∷ updates "ks" (some 1) ∷ updates "other" none ∷ drops "other" ∷ []

simple-IsCongruent : IsCongruent (simple_strategy numbers)
unfolding simple_strategy
simple-IsCongruent a b e =
    ap (λ (n : ℕ). λ own tokens. some (make_simple_map numbers n own tokens)) ((==_iff a b).0 e)

-- The replication factor of ks was 2 when its replicas were first asked for, and is 1 now.
answers_are_fresh_example :
    (ask
      (simple_strategy numbers)
      numbers
      (run (simple_strategy numbers) numbers (begin (("ks", some 2) ∷ []) ring owner) events)
      "ks"
      25).0
    ≡ some (1 ∷ [])
unfolding metadata_program
answers_are_fresh_example =
    answers_are_fresh (simple_strategy numbers) simple-IsCongruent numbers (("ks", some 2) ∷ [])
      ring owner events (("ks", some 1) ∷ [])
      (record {
        ring = ring;
        token_to_host_owner = owner;
        tokens_to_hosts_by_ks = ("ks", some (make_simple_map numbers 1 owner ring)) ∷ [];
      })
      refl "ks" 25
