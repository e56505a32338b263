-- ===== src/Models/Changes.antt =====
-- libs/models/src/mongo: utils.service.ts and watcher.service.ts, from the changes of the database to the events of
-- the watcher. Collections, ids and the paths of fields are numbers, `V` are the values of fields; an object is
-- the list of its assignments, of which the last one of a path counts.
pub mod Diff
mod Tests
use ocean_chat_private.Prelude.{
  ℕ, List, [], ◌∷◌, ◌++◌, map, Option, none, some, Bool, true, false, Result, ok, err, ◌>>=◌, ◌==◌,
  any, ◌&&◌, if◌then◌else◌,
}
use ocean_chat_private.Exceptions.{Exception, other}

abbrev pub Object : Type 0 → Type 0
Object V = List (ℕ × V)

-- What an object has under a path.
unfoldable pub look_up : {V : Type 0} → ℕ → Object V → Option V
look_up key [] = none
look_up key ((k, v) ∷ rest) = elim (look_up key rest) [
  | some later ↦ some later
  | none ↦ if k == key then some v else none
]

-- `updateDescription`. Its fields are paths, such as devices.0.lastLogin; an array that an update shortens stands in
-- `truncated_arrays` with its new size.
pub record UpdateDescription (V : Type 0) : Type 0 where
  pub updated_fields : Option (Object V)
  pub removed_fields : Option (List ℕ)
  pub truncated_arrays : Option (List (ℕ × ℕ))

-- `operationType` with what the conversion reads; the document may have gone before an update is looked up.
pub data Operation (V : Type 0) : Type 0 where
  insert : (full_document : Object V) → Operation V
  update :
      (full_document : Option (Object V)) (description : Option (UpdateDescription V)) → Operation V
  delete : Operation V
  other_type : Operation V

-- `collectionsToWatch`: nothing, one name as a text, or a list of names.
pub data Configured : Type 0 where
  missing : Configured
  single : ℕ → Configured
  several : List ℕ → Configured

pub record Change (V : Type 0) : Type 0 where
  pub collection : ℕ
  pub id : ℕ
  pub operation : Operation V

-- The actions of StreamData, and of the client.
pub data Action : Type 0 where
  inserting updating removing : Action

pub data ClientAction : Type 0 where
  inserted updated removed : ClientAction

-- StreamData; in a diff `none` is `undefined`.
pub record StreamData (V : Type 0) : Type 0 where
  pub id : ℕ
  pub action : Action
  pub client_action : ClientAction
  pub data_of_record : Option (Object V)
  pub diff : Option (Object (Option V))
  pub unset : Option (Object ℕ)
  pub oplog : Bool

-- The `reduce` over the removed fields, which assigns each in turn.
unfoldable pub assign_all : {W : Type 0} → W → List ℕ → Object W → Object W
assign_all w [] acc = acc
assign_all w (field ∷ fields) acc = assign_all w fields (acc ++ (field, w) ∷ [])

-- `new Set`, without the names already seen.
unfoldable pub distinct : List ℕ → List ℕ → List ℕ
distinct seen [] = []
distinct seen (c ∷ cs) =
    let rest = distinct seen cs in
    let more = distinct (c ∷ seen) cs in if any (λ x. x == c) seen then rest else c ∷ more

module _ {V : Type 0} where
  abbrev pub updated_of : Option (UpdateDescription V) → Object V
  updated_of none = []
  updated_of (some d) = elim d.updated_fields [ none ↦ [] | some fields ↦ fields ]

  abbrev pub removed_of : Option (UpdateDescription V) → List ℕ
  removed_of none = []
  removed_of (some d) = elim d.removed_fields [ none ↦ [] | some fields ↦ fields ]

  -- The spread of the updated fields, and of the removed ones as `undefined`.
  unfoldable pub diff_of : Option (UpdateDescription V) → Object (Option V)
  unfolding assign_all
  diff_of description =
      map (λ (field : ℕ × V). (field.0, some field.1)) (updated_of description)
      ++ assign_all none (removed_of description) []

  unfoldable pub unset_of : Option (UpdateDescription V) → Object ℕ
  unfolding assign_all
  unset_of description = assign_all 1 (removed_of description) []

  -- `convertChangeStreamPlayload`.
  unfoldable pub convert_change_stream_playload : ℕ → Operation V → Result Exception (StreamData V)
  unfolding diff_of unset_of
  convert_change_stream_playload id (insert document) = ok (record {
    id = id;
    action = inserting;
    client_action = inserted;
    data_of_record = some document;
    diff = none;
    unset = none;
    oplog = true;
  })
  convert_change_stream_playload id (update document description) = ok (record {
    id = id;
    action = updating;
    client_action = updated;
    data_of_record = document;
    diff = some (diff_of description);
    unset = some (unset_of description);
    oplog = true;
  })
  convert_change_stream_playload id delete = ok (record {
    id = id;
    action = removing;
    client_action = removed;
    data_of_record = none;
    diff = none;
    unset = none;
    oplog = true;
  })
  convert_change_stream_playload id other_type = err other

  -- The stages of the pipeline: operations that are watched, and collections.
  abbrev pub is_watched_type : Operation V → Bool
  is_watched_type (insert document) = true
  is_watched_type (update document description) = true
  is_watched_type delete = true
  is_watched_type other_type = false

  abbrev pub matches : List ℕ → Change V → Bool
  matches collections change =
      is_watched_type change.operation && any (λ c. c == change.collection) collections

  -- The event that a change of the stream emits, under the name of its collection.
  abbrev pub emitted : Change V → Result Exception (ℕ × StreamData V)
  emitted change = convert_change_stream_playload change.id change.operation >>= λ message.
      ok (change.collection, message)

  -- The handlers of the stream, on the changes of the database in order.
  unfoldable pub watch_stream :
      List ℕ → List (Change V) → List (Result Exception (ℕ × StreamData V))
  unfolding convert_change_stream_playload
  watch_stream collections [] = []
  watch_stream collections (change ∷ changes) =
      let rest = watch_stream collections changes in
      if matches collections change then emitted change ∷ rest else rest

  -- `onModuleInit` and what it emits from then on; without a list of collections, or with an empty one, nothing
  -- is watched.
  unfoldable pub on_module_init :
      Configured → List (Change V) → List (Result Exception (ℕ × StreamData V))
  unfolding watch_stream distinct
  on_module_init missing changes = []
  on_module_init (single name) changes = []
  on_module_init (several names) changes = elim (distinct [] names) [
    | [] ↦ []
    | c ∷ cs ↦ watch_stream (c ∷ cs) changes
  ]
