-- ===== src/Authorization/Rooms.antt =====
-- libs/authorization/src/logic/validators: who may access a room. A discussion is open to those who may
-- access its parent room, so that the check is recursive; the model recurses on fuel.
pub mod Rules
pub mod Access
pub mod Recursion
use ocean_chat_private.Prelude.{
  ℕ, zero, suc, List, [], ◌∷◌, Option, none, some, Bool, true, false, Result, ok, err, ◌>>=◌, ◌==◌,
  if◌then◌else◌,
}
use ocean_chat_private.Exceptions.{Exception}
use ocean_chat_private.Authorization.Permissions.{RoleSource, has_permission}

-- The `t` of a room: 'c', 'p', 'd' or another text.
pub data RoomType : Type 0 where
  c p d other_type : RoomType

pub record RoomContext : Type 0 where
  pub id : ℕ
  pub t : RoomType
  pub team_id : Option ℕ
  pub prid : Option ℕ

pub data TeamType : Type 0 where
  public_team private_team : TeamType

-- ITeamDataProvider.
pub record TeamDataProvider : Type 0 where
  pub get_team_type : ℕ → Result Exception TeamType
  pub is_team_member : ℕ → ℕ → Result Exception Bool

-- What the validators are given; each provider is optional.
pub record Providers : Type 0 where
  pub roles : RoleSource
  pub room_context : Option (ℕ → Result Exception (Option RoomContext))
  pub teams : Option TeamDataProvider
  pub scoped_roles : Option (ℕ → ℕ → Result Exception (List ℕ))

-- The four permissions that the validators ask for, numbered.
abbrev pub view_c_room : ℕ
view_c_room = 1

abbrev pub view_p_room : ℕ
view_p_room = 2

abbrev pub view_d_room : ℕ
view_d_room = 3

abbrev pub view_joined_room : ℕ
view_joined_room = 4

abbrev pub get_type_permission : RoomType → Option ℕ
get_type_permission c = some view_c_room
get_type_permission p = some view_p_room
get_type_permission d = some view_d_room
get_type_permission other_type = none

abbrev pub is_c : RoomType → Bool
is_c c = true
is_c _ = false

-- The answer of a check, or that of the next one where it says no.
abbrev pub or_then : Result Exception Bool → Result Exception Bool → Result Exception Bool
or_then (ok true) next = ok true
or_then (ok false) next = next
or_then (err e) next = err e

module _ (g : Providers) where
  abbrev pub outside_teams : ℕ → RoomType → Option ℕ → Result Exception Bool
  outside_teams user type (some team) = ok false
  outside_teams user type none =
      if is_c type then has_permission g.roles (some user) (some view_c_room) none else ok false

  -- PublicRoomValidator.
  unfoldable pub validate_public : ℕ → RoomContext → Result Exception Bool
  validate_public user room = outside_teams user room.t room.team_id

  abbrev pub by_team_type : TeamDataProvider → ℕ → ℕ → TeamType → Result Exception Bool
  by_team_type teams user team public_team =
      has_permission g.roles (some user) (some view_c_room) none
  by_team_type teams user team private_team = teams.is_team_member user team

  abbrev pub in_team : Option TeamDataProvider → ℕ → Option ℕ → Result Exception Bool
  in_team teams user none = ok false
  in_team none user (some team) = ok false
  in_team (some teams) user (some team) =
      teams.get_team_type team >>= λ type. by_team_type teams user team type

  -- TeamRoomValidator.
  unfoldable pub validate_team : ℕ → RoomContext → Result Exception Bool
  validate_team user room = if is_c room.t then in_team g.teams user room.team_id else ok false

  abbrev pub if_permitted : ℕ → Option ℕ → Result Exception Bool
  if_permitted user none = ok false
  if_permitted user (some permission) = has_permission g.roles (some user) (some permission) none

  abbrev pub if_member : ℕ → RoomContext → List ℕ → Result Exception Bool
  if_member user room [] = ok false
  if_member user room (r ∷ rs) =
      or_then (has_permission g.roles (some user) (some view_joined_room) none)
        (if_permitted user (get_type_permission room.t))

  abbrev pub with_scope_provider :
      Option (ℕ → ℕ → Result Exception (List ℕ)) → ℕ → RoomContext → Result Exception Bool
  with_scope_provider none user room = ok false
  with_scope_provider (some scoped) user room =
      scoped user room.id >>= λ roles. if_member user room roles

  -- MembershipValidator.
  unfoldable pub validate_membership : ℕ → RoomContext → Result Exception Bool
  validate_membership user room = with_scope_provider g.scoped_roles user room

  -- The validators after the first, in their order.
  unfoldable pub validate_rest : ℕ → RoomContext → Result Exception Bool
  unfolding validate_public validate_team validate_membership
  validate_rest user room =
      or_then (validate_team user room)
        (or_then (validate_public user room) (validate_membership user room))

  -- The parent room of a discussion, where there is one.
  abbrev pub parent_of :
      Option (ℕ → Result Exception (Option RoomContext))
      → Option ℕ
      → Result Exception (Option RoomContext)
  parent_of rooms none = ok none
  parent_of none (some prid) = ok none
  parent_of (some room_context) (some prid) = room_context prid

  -- DiscussionValidator, with the check of the parent room; `none` where that does not return.
  abbrev pub validate_discussion :
      (RoomContext → Option (Result Exception Bool))
      → Result Exception (Option RoomContext)
      → Option (Result Exception Bool)
  validate_discussion check (err e) = some (err e)
  validate_discussion check (ok none) = some (ok false)
  validate_discussion check (ok (some parent)) = check parent

  abbrev pub finish :
      Option (Result Exception Bool) → Result Exception Bool → Option (Result Exception Bool)
  finish none rest = none
  finish (some discussion) rest = some (or_then discussion rest)

  -- RoomAccessValidator.canAccess for a user that is there. The fuel bounds the depth of the recursion.
  unfoldable pub can_access : ℕ → ℕ → RoomContext → Option (Result Exception Bool)
  unfolding validate_rest
  can_access zero user room = none
  can_access (suc n) user room =
      finish
        (validate_discussion (λ parent. can_access n user parent)
          (parent_of g.room_context room.prid))
        (validate_rest user room)
