-- ===== src/Tests/Updates.antt =====
-- Tests of Cqlengine.
use python_driver.Prelude.{ℕ, ◌≡◌, refl, ◌⊎◌, none, some, List, [], ◌∷◌, length}
use python_driver.Cqlengine
use python_driver.Cqlengine.{
  no_operation, append, add, analyze, get_context_size, update_context, ListUpdate, execute,
  unicode,
}
use python_driver.Cqlengine.ListUpdates.{or_empty, effect, list_updated}
use python_driver.Cqlengine.SetUpdates
use python_driver.Cqlengine.SetUpdates.{member}
use python_driver.Cqlengine.SetUpdates.Applied.{set_updated}
use python_driver.Cqlengine.MapUpdates
use python_driver.Cqlengine.MapUpdates.{get, Entry, map_key, map_value}
use python_driver.Cqlengine.MapUpdates.Applied.{map_updated}

abbrev old : List ℕ
old = 1 ∷ 2 ∷ []

abbrev new : List ℕ
new = 1 ∷ 3 ∷ 1 ∷ 2 ∷ 4 ∷ []

list_updated_example :
    (execute effect
        (unicode (analyze no_operation (some new) (some old)))
        (update_context (analyze no_operation (some new) (some old)))
        (or_empty (some old))
      ≡ some new)
    × ((get_context_size (analyze append (some new) (some old)) ≡ 0)
        ⊎ (length (update_context (analyze append (some new) (some old)))
            ≡ get_context_size (analyze append (some new) (some old))))
list_updated_example = list_updated append new (some old)

set_updated_example :
    ((ys : List ℕ) × (execute SetUpdates.effect
          (SetUpdates.unicode (SetUpdates.analyze no_operation (some new) (some old)) (some old))
          (SetUpdates.update_context
            (SetUpdates.analyze no_operation (some new) (some old))
            (some old))
          (SetUpdates.or_empty (some old))
        ≡ some ys)
      × (member 3 ys ≡ member 3 new))
    × ((SetUpdates.get_context_size (SetUpdates.analyze add (some new) (some old)) (some old) ≡ 0)
        ⊎ (length
              (SetUpdates.update_context (SetUpdates.analyze add (some new) (some old)) (some old))
            ≡ SetUpdates.get_context_size
                (SetUpdates.analyze add (some new) (some old))
                (some old)))
set_updated_example = set_updated 3 add new (some old)

abbrev old_map : List (ℕ × ℕ)
old_map = (1, 10) ∷ (2, 20) ∷ []

abbrev new_map : List (ℕ × ℕ)
new_map = (3, 30) ∷ (2, 21) ∷ []

map_updated_example :
    (MapUpdates.delete_keys
        (MapUpdates.removals new_map (some old_map))
        (MapUpdates.apply_entries
          (MapUpdates.update_context new_map (some old_map))
          (get (MapUpdates.or_empty (some old_map))))
        1
      ≡ get new_map 1)
    × (length (MapUpdates.update_context new_map (some old_map))
        ≡ MapUpdates.get_context_size new_map (some old_map))
map_updated_example = map_updated 1 new_map (some old_map)

update_program : Unit {0}
unfolding Cqlengine.list_eq Cqlengine.or_none Cqlengine.is_there Cqlengine.is_filled Cqlengine.entry
    Cqlengine.unchanged Cqlengine.rewritten Cqlengine.matches Cqlengine.search Cqlengine.around
    Cqlengine.or_rewritten Cqlengine.found_at Cqlengine.compare_lists Cqlengine.analyze_value
    Cqlengine.is_previous Cqlengine.analyze_operation analyze get_context_size update_context
    SetUpdates.member SetUpdates.minus SetUpdates.is_subset SetUpdates.set_eq SetUpdates.unchanged
    SetUpdates.is_previous SetUpdates.analyze_value SetUpdates.analyze_operation SetUpdates.analyze
    SetUpdates.is_none SetUpdates.get_context_size SetUpdates.is_emptied SetUpdates.update_context
update_program = tt

map_program : Unit {0}
unfolding get MapUpdates.option_eq MapUpdates.insert MapUpdates.sorted MapUpdates.changed
    MapUpdates.keys MapUpdates.updates MapUpdates.is_assignment MapUpdates.key_entries
    MapUpdates.update_context MapUpdates.missing MapUpdates.or_empty MapUpdates.removals
map_program = tt

-- Two items are written, in the order of their keys, and one is deleted.
map_patch :
    MapUpdates.update_context new_map (some old_map)
    ≡ map_key 2 ∷ map_value (some 21) ∷ map_key 3 ∷ map_value (some 30) ∷ []
unfolding map_program
map_patch = refl

keys_deleted : MapUpdates.removals new_map (some old_map) ≡ 1 ∷ []
unfolding map_program
keys_deleted = refl

-- What stands before and behind the old list is put there.
list_patch :
    update_context (analyze no_operation (some new) (some old)) ≡ (1 ∷ 3 ∷ []) ∷ (4 ∷ []) ∷ []
unfolding update_program
list_patch = refl

-- One element is added and one removed.
set_patch :
    SetUpdates.update_context
      (SetUpdates.analyze no_operation (some (1 ∷ 3 ∷ [])) (some old))
      (some old)
    ≡ (3 ∷ []) ∷ (2 ∷ []) ∷ []
unfolding update_program
set_patch = refl

-- A column that was null and stays null is set to the empty set.
set_emptied : SetUpdates.update_context (SetUpdates.analyze no_operation none none) none ≡ [] ∷ []
unfolding update_program
set_emptied = refl
