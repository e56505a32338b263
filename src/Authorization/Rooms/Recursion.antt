-- ===== src/Authorization/Rooms/Recursion.antt =====
-- libs/authorization/src/logic/validators: when the recursive check returns, and when it does not.
use ocean_chat_private.Prelude.{
  ℕ, zero, suc, ◌<◌, ◌≡◌, refl, ap, ◌∙◌, Option, none, some, Bool, Result, ok, err, arith,
}
use ocean_chat_private.Exceptions.{Exception}
use ocean_chat_private.Authorization.Rooms.{
  RoomContext, Providers, or_then, validate_rest, parent_of, validate_discussion, finish,
  can_access,
}

module _ (g : Providers) (user : ℕ) where
  level-returns :
      (check : RoomContext → Option (Result Exception Bool)) (rest : Result Exception Bool)
      (p : Result Exception (Option RoomContext))
      → ((parent : RoomContext)
          → p ≡ ok (some parent)
          → (r : Result Exception Bool) × (check parent ≡ some r))
      → (r : Result Exception Bool) × (finish g (validate_discussion g check p) rest ≡ some r)
  level-returns check rest (err e) h = (err e, refl)
  level-returns check rest (ok none) h = (rest, refl)
  level-returns check rest (ok (some parent)) h =
      let (r, e) = h parent refl in (or_then r rest, ap (λ o. finish g o rest) e)

  -- If each parent room has a smaller rank than its discussion, the check returns: fuel of one more than
  -- the rank of the room is enough.
  pub can_access_returns :
      (rank : RoomContext → ℕ) (n : ℕ) (room : RoomContext)
      → ((child parent : RoomContext)
          → parent_of g g.room_context child.prid ≡ ok (some parent)
          → rank parent < rank child)
      → rank room < n
      → (r : Result Exception Bool) × (can_access g n user room ≡ some r)
  unfolding can_access
  can_access_returns rank zero room smaller l = absurd (omega arith)
  can_access_returns rank (suc n) room smaller l =
      level-returns (λ parent. can_access g n user parent) (validate_rest g user room)
        (parent_of g g.room_context room.prid)
        (λ parent p.
          can_access_returns rank n parent smaller (omega (arith, smaller room parent p)))

  -- In a set of discussions that holds a parent of each of its rooms, such as a cycle, the check of no
  -- room returns, with any fuel.
  pub cyclic_never_returns :
      (P : RoomContext → Type 0) (n : ℕ) (room : RoomContext)
      → ((child : RoomContext)
          → P child
          → (parent : RoomContext) × (parent_of g g.room_context child.prid ≡ ok (some parent))
            × P parent)
      → P room
      → can_access g n user room ≡ none
  unfolding can_access
  cyclic_never_returns P zero room closed h = refl
  cyclic_never_returns P (suc n) room closed h =
      let (parent, p, q) = closed room h in
      ap
        (λ o.
          finish g (validate_discussion g (λ r. can_access g n user r) o)
            (validate_rest g user room))
        p
      ∙ ap (λ o. finish g o (validate_rest g user room)) (cyclic_never_returns P n parent closed q)
