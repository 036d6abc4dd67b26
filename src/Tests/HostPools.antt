-- ===== src/Tests/HostPools.antt =====
-- Tests of Pool/Connections.
use python_driver.Prelude.{◌+◌, ◌≤◌, ◌≡◌, refl, ◌⊎◌, true, false, List, [], ◌∷◌, arith}
use python_driver.Prelude.Int.{pos}
use python_driver.Pool.Connections
use python_driver.Pool.Connections.{
  HostPool, Event, init, run, connected, refused, authentication_failed, other_exception, spawns,
  ensures_core, begins_create, begins_replace, ends_create, ends_replace, returns_failed,
  returns_trashed, trashes, shuts_down,
}
use python_driver.Pool.Connections.Bounds.{total, Covers, lost, at_most_max}
use python_driver.Pool.Connections.Stranded.{failing, stranded}

abbrev events : List Event
events =
    spawns
    ∷ begins_create
    ∷ spawns
    ∷ ends_create (connected 3)
    ∷ returns_failed 1 false
    ∷ begins_replace
    ∷ ends_replace (refused false)
    ∷ begins_replace
    ∷ ends_replace (connected 4)
    ∷ trashes 2 false
    ∷ returns_trashed 2 true
    ∷ []

abbrev pool : HostPool
pool = run 2 3 (init (1 ∷ 2 ∷ [])) events

at_most_max_example :
    (total pool ≤ 3)
    × (pool.scheduled_for_creation ≡ pool.create_tasks + pool.creating)
    × ((pool.is_shutdown ≡ true) ⊎ Covers pool.open_count (total pool) (lost events))
at_most_max_example = at_most_max 2 3 (1 ∷ 2 ∷ []) events (omega arith)

pool_program : Unit {0}
unfolding init Connections.increment Connections.decrease Connections.at_least Connections.exceeds
    Connections.contains Connections.remove Connections.close_all Connections.shutdown
    Connections.add_conn Connections.is_added Connections.close_conn Connections.replace
    Connections.return_failed Connections.return_trashed Connections.schedule
    Connections.maybe_spawn Connections.ensure_core_connections Connections.may_open
    Connections.begin_create Connections.begin_replace Connections.end_create
    Connections.end_replace Connections.maybe_trash Connections.step run failing
pool_program = tt

-- A connection is added, one is replaced at the second attempt, and one is trashed and closed.
pool_after : pool.connections ≡ 3 ∷ 4 ∷ []
unfolding pool_program
pool_after = refl

opened_after : pool.opened ≡ 3 ∷ 4 ∷ []
unfolding pool_program
opened_after = refl

count_after : pool.open_count ≡ pos 2
unfolding pool_program
count_after = refl

-- Two attempts have timed out, and no third is made.
stranded_example :
    (run 1 2 (init (7 ∷ [])) (
      returns_failed 7 false
      ∷ failing 1 2 2 (
          begins_replace
          ∷ ensures_core
          ∷ begins_create
          ∷ ends_create (connected 8)
          ∷ []))).connections
    ≡ []
stranded_example =
    stranded 1 2 7 (begins_replace ∷ ensures_core ∷ begins_create ∷ ends_create (connected 8) ∷ [])

-- A connection that is opened while the pool is shut down stays open.
open_after_shutdown :
    (run 1 2
      (init (7 ∷ []))
      (spawns ∷ begins_create ∷ shuts_down ∷ ends_create (connected 8) ∷ shuts_down ∷ [])).opened
    ≡ 8 ∷ []
unfolding pool_program
open_after_shutdown = refl
