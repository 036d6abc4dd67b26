-- ===== src/Tests/Pools.antt =====
-- Tests of Pool.
use python_driver.Prelude.{
  ◌↔◌, ◌+◌, ◌≤◌, ◌≡◌, refl, ◌⊎◌, true, false, none, some, List, [], ◌∷◌, arith,
}
use python_driver.Pool
use python_driver.Pool.{
  Pool, Event, contains, returns_broken, starts_replacing, begins_replace, ends_replace,
  finishes_replace, shuts_down, run, step, init,
}
use python_driver.Pool.Replacing.{
  replacements, any_early, stranded_between, has_connection, served_until_shutdown,
  leaked_after_shutdown,
}

abbrev events : List Event
events =
    returns_broken 1 false
    ∷ returns_broken 1 false
    ∷ starts_replacing
    ∷ begins_replace
    ∷ ends_replace none
    ∷ begins_replace
    ∷ []

pool_program : Unit {0}
unfolding init contains Pool.without Pool.close Pool.shutdown Pool.drop_connection
    Pool.start_replacing Pool.return_broken Pool.begin_replace Pool.end_replace Pool.finish_replace
    step run
pool_program = tt

abbrev replaced : List Event
replaced =
    returns_broken 1 false
    ∷ starts_replacing
    ∷ begins_replace
    ∷ ends_replace (some 2)
    ∷ finishes_replace
    ∷ returns_broken 2 false
    ∷ starts_replacing
    ∷ begins_replace
    ∷ []

served_until_shutdown_example :
    (replacements (run (init 1 false) replaced) ≤ 1)
    × (((run (init 1 false) replaced).is_shutdown ≡ true)
        ⊎ ((((run (init 1 false) replaced).is_replacing ≡ true)
              ↔ (replacements (run (init 1 false) replaced) ≡ 1))
            × ((any_early (init 1 false) replaced ≡ true)
                ⊎ (has_connection (run (init 1 false) replaced).connection ≡ true)
                ⊎ (1
                    ≤ (run (init 1 false) replaced).submitted
                      + (run (init 1 false) replaced).connecting
                      + (run (init 1 false) replaced).returning))))
served_until_shutdown_example = served_until_shutdown 1 false replaced

replaced_calmly : any_early (init 1 false) replaced ≡ false
unfolding pool_program
replaced_calmly = refl

-- The pool that has set a second connection and not yet reset `_is_replacing`.
abbrev early : Pool
early = record {
  is_shutdown = false;
  shutdown_on_error = false;
  connection = some 2;
  is_replacing = true;
  signaled = 1 ∷ [];
  submitted = 0;
  connecting = 0;
  installed = 1;
  returning = 0;
  opened = 2 ∷ 1 ∷ [];
}

early_lem :
    run
      (init 1 false)
      (returns_broken 1 false ∷ starts_replacing ∷ begins_replace ∷ ends_replace (some 2) ∷ [])
    ≡ early
unfolding pool_program
early_lem = refl

stranded_between_example :
    ((run early (
        returns_broken 2 false
        ∷ starts_replacing
        ∷ finishes_replace
        ∷ returns_broken 2 false
        ∷ begins_replace
        ∷ [])).connection
      ≡ none)
    × (replacements (
          run early (
            returns_broken 2 false
            ∷ starts_replacing
            ∷ finishes_replace
            ∷ returns_broken 2 false
            ∷ begins_replace
            ∷ []))
        ≡ 0)
unfolding contains
stranded_between_example =
    stranded_between early 2 (returns_broken 2 false ∷ begins_replace ∷ []) refl refl refl refl refl
      refl (refl, (tt, tt))

-- The pool after the first events, and a shutdown.
abbrev closing : Pool
closing = record {
  is_shutdown = true;
  shutdown_on_error = false;
  connection = none;
  is_replacing = true;
  signaled = 1 ∷ [];
  submitted = 0;
  connecting = 1;
  installed = 0;
  returning = 0;
  opened = 1 ∷ [];
}

closing_lem : step (run (init 1 false) events) shuts_down ≡ closing
unfolding pool_program
closing_lem = refl

leaked_after_shutdown_example :
    ((step closing (ends_replace (some 2))).connection ≡ some 2)
    × (contains 2 (run (step closing (ends_replace (some 2))) (shuts_down ∷ [])).opened ≡ true)
leaked_after_shutdown_example = leaked_after_shutdown closing 2 (shuts_down ∷ []) refl (omega arith)
