-- ===== src/Models/Changes/Diff.antt =====
-- libs/models/src/mongo: what a client gets by the message of a change.
use ocean_chat_private.Prelude.{
  ℕ, ◌≡◌, refl, sym, ap, subst, ◌∙◌, List, [], ◌∷◌, map, Option, none, some, Bool, true, false,
  ◌||◌, Result, ok, ◌>>=◌, ◌==◌, any, All, arith, if◌then◌else◌, Bool-cases, inl, inr,
}
use ocean_chat_private.Exceptions.{Exception}
use ocean_chat_private.Models.Changes.{
  look_up, UpdateDescription, Operation, insert, update, delete, other_type, Change, StreamData,
  is_watched_type, updated_of, removed_of, convert_change_stream_playload, matches, emitted,
  watch_stream, distinct, on_module_init, several,
}

-- A later assignment, or else an earlier one.
abbrev pub over : {W : Type 0} → Option W → Option W → Option W
over none earlier = earlier
over (some later) earlier = some later

abbrev pub assigned : {W : Type 0} → W → Bool → Option W
assigned w true = some w
assigned w false = none

abbrev pub names_it : ℕ → List ℕ → Bool
names_it key fields = any (λ f. f == key) fields

module _ {V : Type 0} where
  -- What the description says of a path: removed, which is `undefined` in a diff, or a new value, or nothing.
  pub data Says (path : ℕ) (description : Option (UpdateDescription V))
      : Option (Option V) → Type 0 where
    is_removed : names_it path (removed_of description) ≡ true → Says path description (some none)
    is_updated :
        (v : V)
        → names_it path (removed_of description) ≡ false
        → look_up path (updated_of description) ≡ some v
        → Says path description (some (some v))
    is_untouched :
        names_it path (removed_of description) ≡ false
        → look_up path (updated_of description) ≡ none
        → Says path description none

-- The names of a list that was made distinct.
any-distinct :
    (key : ℕ) (seen names : List ℕ)
    → (names_it key (distinct seen names) || names_it key seen)
      ≡ (names_it key names || names_it key seen)
unfolding distinct
any-distinct key seen [] = refl
any-distinct key seen (c ∷ cs) = ground (
  arith,
  any-distinct key seen cs,
  any-distinct key (c ∷ seen) cs,
  λ (e : c ≡ key). ap (λ x. names_it x seen) e,
)

or_false : (b : Bool) → (b || false) ≡ b
or_false true = refl
or_false false = refl

names_it-distinct :
    (key : ℕ) (names : List ℕ) → names_it key (distinct [] names) ≡ names_it key names
names_it-distinct key names =
    sym (or_false (names_it key (distinct [] names)))
    ∙ any-distinct key [] names
    ∙ or_false (names_it key names)

module _ {V : Type 0} where
  -- The insertions, updates and deletions of the collections that are named.
  abbrev pub watched : List ℕ → List (Change V) → List (Change V)
  watched names [] = []
  watched names (change ∷ changes) =
      if matches names change then change ∷ watched names changes else watched names changes

  abbrev pub IsMessage : Result Exception (ℕ × StreamData V) → Type 0
  IsMessage r = (event : ℕ × StreamData V) × (r ≡ ok event)

  watch_stream-watched :
      (names names' : List ℕ) (changes : List (Change V))
      → ((key : ℕ) → names_it key names ≡ names_it key names')
      → watch_stream names changes ≡ map emitted (watched names' changes)
  unfolding watch_stream
  watch_stream-watched names names' [] same = refl
  watch_stream-watched names names' (change ∷ changes) same =
      ground (arith, same change.collection, watch_stream-watched names names' changes same)

  watch_stream-none : (changes : List (Change V)) → watch_stream [] changes ≡ []
  unfolding watch_stream
  watch_stream-none [] = refl
  watch_stream-none (change ∷ changes) = ground (arith, watch_stream-none changes)

  converted :
      (id collection : ℕ) (o : Operation V)
      → is_watched_type o ≡ true
      → IsMessage (convert_change_stream_playload id o >>= λ message. ok (collection, message))
  unfolding convert_change_stream_playload
  converted id collection (insert document) h = (_, refl)
  converted id collection (update document description) h = (_, refl)
  converted id collection delete h = (_, refl)
  converted id collection other_type h = cc

  watched-IsMessage :
      (names : List ℕ) (changes : List (Change V))
      → All IsMessage (map emitted (watched names changes))
  watched-IsMessage names [] = tt
  watched-IsMessage names (c ∷ changes) = elim (Bool-cases (matches names c)) [
    | inr ignored ↦ rw ignored (watched-IsMessage names changes)
    | inl seen ↦ rw seen (
      converted c.id c.collection c.operation (ground (arith, seen)),
      watched-IsMessage names changes,
    )
  ]

  unless_none :
      (changes : List (Change V)) (ds : List ℕ)
      → elim ds [ [] ↦ [] | c ∷ cs ↦ watch_stream (c ∷ cs) changes ] ≡ watch_stream ds changes
  unless_none changes [] = sym (watch_stream-none changes)
  unless_none changes (d ∷ ds) = refl

  -- The watcher emits, in order, the message of every insertion, update and deletion of a collection that is
  -- named, however often, and of no other change, and no change makes it throw.
  pub on_module_init-watched :
      (names : List ℕ) (changes : List (Change V))
      → (on_module_init (several names) changes ≡ map emitted (watched names changes))
        × All IsMessage (on_module_init (several names) changes)
  unfolding on_module_init
  on_module_init-watched names changes =
      let same =
        unless_none changes (distinct [] names)
        ∙ watch_stream-watched (distinct [] names) names changes
            (λ key. names_it-distinct key names) in
      (same, subst (All IsMessage) (sym same) (watched-IsMessage names changes))
