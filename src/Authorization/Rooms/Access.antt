-- ===== src/Authorization/Rooms/Access.antt =====
-- libs/authorization/src/logic/validators: the answer of the recursive check against who may access a room.
use ocean_chat_private.Prelude.{
  ℕ, zero, suc, ◌≡◌, ◌↔◌, ◌⊎◌, inl, inr, refl, sym, ap, ◌∙◌, Option, none, some, Bool, true, false,
  Result, ok, err, arith,
}
use ocean_chat_private.Exceptions.{Exception}
use ocean_chat_private.Authorization.Rooms.{
  RoomContext, Providers, or_then, validate_public, validate_team, validate_membership,
  validate_rest, parent_of, validate_discussion, finish, can_access,
}
use ocean_chat_private.Authorization.Rooms.Rules.{
  Access, in_room_of_team, in_public_room, as_member, by_parent, or_then-eq-true, or_then-first,
  or_then-second, validate_team-Access, validate_public-Access, validate_membership-Access,
  parent_of-eq-some, validate_team-eq-true, validate_public-eq-true, validate_membership-answers,
}

module _ (g : Providers) (user : ℕ) where
  rest-Access : (room : RoomContext) → validate_rest g user room ≡ ok true → Access g user room
  unfolding validate_rest
  rest-Access room h = elim (or_then-eq-true (validate_team g user room) _ h) [
    | inl t ↦ validate_team-Access g user room t
    | inr r ↦ elim (or_then-eq-true (validate_public g user room) _ r) [
      | inl shown ↦ validate_public-Access g user room shown
      | inr member ↦ validate_membership-Access g user room member
    ]
  ]

  -- One level of the recursion, whose check of the parent answers `o`.
  level-Access :
      (room : RoomContext) (check : RoomContext → Option (Result Exception Bool))
      (looked : Result Exception (Option RoomContext))
      → ((parent : RoomContext) → check parent ≡ some (ok true) → Access g user parent)
      → parent_of g g.room_context room.prid ≡ looked
      → finish g (validate_discussion g check looked) (validate_rest g user room) ≡ some (ok true)
      → Access g user room
  level-Access room check (err e) ih q h = ground arith
  level-Access room check (ok none) ih q h = rest-Access room (ground arith)
  level-Access room check (ok (some parent)) ih q h = opened (check parent) refl h
    where
      opened :
          (o : Option (Result Exception Bool))
          → check parent ≡ o
          → finish g o (validate_rest g user room) ≡ some (ok true)
          → Access g user room
      opened none k h = cc
      opened (some r) k h = elim (or_then-eq-true r (validate_rest g user room) (ground arith)) [
        | inl granted ↦
            let (look, id, found, is_id, came) =
              parent_of-eq-some g user g.room_context room.prid parent q in
            by_parent look id parent found is_id came (ih parent (k ∙ ap some granted))
        | inr rest ↦ rest-Access room rest
      ]

  can_access-Access :
      (n : ℕ) (room : RoomContext) → can_access g n user room ≡ some (ok true) → Access g user room
  unfolding can_access
  can_access-Access zero room h = cc
  can_access-Access (suc n) room h =
      level-Access room (λ parent. can_access g n user parent)
        (parent_of g g.room_context room.prid) (can_access-Access n) refl h

  rest_answers :
      (room : RoomContext) (asked : Result Exception Bool) (b : Bool)
      → (validate_team g user room ≡ ok true)
        ⊎ ((validate_public g user room ≡ ok true)
            ⊎ ((s : Bool) → validate_membership g user room ≡ ok s → s ≡ true))
      → or_then asked (validate_rest g user room) ≡ ok b
      → b ≡ true
  unfolding validate_rest
  rest_answers room asked b (inl t) h =
      or_then-second asked _ b (λ s e. or_then-first (validate_team g user room) _ s t e) h
  rest_answers room asked b (inr (inl t)) h =
      or_then-second asked _ b
        (λ s e.
          or_then-second (validate_team g user room) _ s
            (λ s e. or_then-first (validate_public g user room) _ s t e) e)
        h
  rest_answers room asked b (inr (inr t)) h =
      or_then-second asked _ b
        (λ s e.
          or_then-second (validate_team g user room) _ s
            (λ s e. or_then-second (validate_public g user room) _ s t e) e)
        h

  finish-eq-ok :
      (o : Option (Result Exception Bool)) (rest : Result Exception Bool) (b : Bool)
      → finish g o rest ≡ some (ok b)
      → (asked : Result Exception Bool) × (o ≡ some asked) × (or_then asked rest ≡ ok b)
  finish-eq-ok none rest b h = cc
  finish-eq-ok (some asked) rest b h = (asked, refl, ground arith)

  parent_answers :
      (n : ℕ) (room parent : RoomContext) (b : Bool)
      → ((r : Bool) → can_access g n user parent ≡ some (ok r) → r ≡ true)
      → parent_of g g.room_context room.prid ≡ ok (some parent)
      → finish g
          (validate_discussion g
            (λ q. can_access g n user q)
            (parent_of g g.room_context room.prid))
          (validate_rest g user room)
        ≡ some (ok b)
      → b ≡ true
  parent_answers n room parent b ih looked h =
      let (asked, came, next) =
        finish-eq-ok (can_access g n user parent) (validate_rest g user room) b (
          sym (
            ap
              (λ o.
                finish g (validate_discussion g (λ q. can_access g n user q) o)
                  (validate_rest g user room))
              looked)
          ∙ h) in
      decided asked (validate_rest g user room) (λ r e. ih r (came ∙ ap some e)) next
    where
      decided :
          (asked rest : Result Exception Bool)
          → ((r : Bool) → asked ≡ ok r → r ≡ true)
          → or_then asked rest ≡ ok b
          → b ≡ true
      decided (ok true) rest y e = ground arith
      decided (ok false) rest y e = ground (arith, y false refl)
      decided (err x) rest y e = ground arith

  Access-answers :
      {room : RoomContext} (n : ℕ) (b : Bool)
      → Access g user room
      → can_access g n user room ≡ some (ok b)
      → b ≡ true
  unfolding can_access
  Access-answers {room} zero b a h = cc
  Access-answers {room} (suc n) b (in_room_of_team team teams t e q way) h =
      let (asked, came, next) = finish-eq-ok _ (validate_rest g user room) b h in
      rest_answers room asked b (inl (validate_team-eq-true g user room team teams t e q way)) next
  Access-answers {room} (suc n) b (in_public_room t e holds) h =
      let (asked, came, next) = finish-eq-ok _ (validate_rest g user room) b h in
      rest_answers room asked b (inr (inl (validate_public-eq-true g user room t e holds))) next
  Access-answers {room} (suc n) b (as_member scoped role roles permission q s opens holds) h =
      let (asked, came, next) = finish-eq-ok _ (validate_rest g user room) b h in
      rest_answers room asked b
        (inr (
          inr (λ r.
            validate_membership-answers g user room scoped role roles permission r q s opens
              holds)))
        next
  Access-answers {room} (suc n) b (by_parent look id parent q e came a) h =
      parent_answers n room parent b (λ r x. Access-answers n r a x)
        (ap (λ o. parent_of g o room.prid) q ∙ ap (λ o. parent_of g (some look) o) e ∙ came) h

  -- Whenever the check answers without an error, it says yes exactly to those who may access the room.
  pub can_access_lem :
      (n : ℕ) (room : RoomContext) (b : Bool)
      → can_access g n user room ≡ some (ok b)
      → (b ≡ true) ↔ Access g user room
  can_access_lem n room b h = (
    λ granted. can_access-Access n room (h ∙ ap (λ x. some (ok x)) granted),
    λ a. Access-answers n b a h,
  )
