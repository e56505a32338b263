-- ===== src/Models/Changes/Tests.antt =====
-- The watcher on an update, with the fields 1 to 3.
use ocean_chat_private.Prelude.{ℕ, ◌≡◌, refl, List, [], ◌∷◌, none, some}
use ocean_chat_private.Models.Changes.{
  Object, look_up, UpdateDescription, Change, assign_all, diff_of, insert, on_module_init, several,
  delete, emitted,
}
use ocean_chat_private.Models.Changes.Diff.{on_module_init-watched}

abbrev before : Object ℕ
before = (1, 10) ∷ (2, 20) ∷ (3, 30) ∷ []

abbrev description : UpdateDescription ℕ
description = record {
  updated_fields = some ((1, 11) ∷ []);
  removed_fields = some (2 ∷ []);
  truncated_arrays = some ((4, 1) ∷ []);
}

gone : look_up 2 (diff_of (some description)) ≡ some none
unfolding diff_of assign_all look_up
gone = refl

changed : look_up 1 (diff_of (some description)) ≡ some (some 11)
unfolding diff_of assign_all look_up
changed = refl

abbrev changes : List (Change ℕ)
changes =
    record { collection = 5; id = 7; operation = insert before }
    ∷ record { collection = 6; id = 8; operation = delete }
    ∷ []

-- A collection that is named twice is watched once, and another one not at all.
watched_once :
    on_module_init (several (5 ∷ 5 ∷ [])) changes
    ≡ emitted (record { collection = 5; id = 7; operation = insert before }) ∷ []
watched_once = (on_module_init-watched (5 ∷ 5 ∷ []) changes).0
