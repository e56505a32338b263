-- ===== src/Authorization/Rooms/Rules.antt =====
-- libs/authorization/src/logic/validators: who may access a room, said without the order of the validators, and what
-- each of them finds of it.
use ocean_chat_private.Prelude.{
  ℕ, ◌≡◌, ◌⊎◌, inl, inr, refl, sym, ap, ◌∙◌, Option, none, some, Bool, true, false, Result, ok, err,
  arith, List, [], ◌∷◌, ◌>>=◌, if◌then◌else◌,
}
use ocean_chat_private.Exceptions.{Exception}
use ocean_chat_private.Authorization.Permissions.{has_permission}
use ocean_chat_private.Authorization.Rooms.{
  RoomType, c, p, d, other_type, TeamType, public_team, private_team, TeamDataProvider, view_c_room,
  view_p_room, view_d_room, view_joined_room, get_type_permission, is_c, outside_teams,
  by_team_type, in_team, if_permitted, if_member, with_scope_provider, RoomContext, Providers,
  or_then, validate_public, validate_team, validate_membership, parent_of,
}

-- The user holds the permission in no scope.
abbrev pub Holds : Providers → ℕ → ℕ → Type 0
Holds g user permission = has_permission g.roles (some user) (some permission) none ≡ ok true

-- The permissions that open a room of a type to those who hold a role in it.
pub data Opens : RoomType → ℕ → Type 0 where
  joined : {type : RoomType} → Opens type view_joined_room
  public_rooms : Opens c view_c_room
  private_rooms : Opens p view_p_room
  direct_rooms : Opens d view_d_room

-- A room of type 'c' of a public team is open to those who may see public rooms, one of a private team to the
-- members of the team.
pub data OpenInTeam (g : Providers) (user : ℕ) (team : ℕ) (teams : TeamDataProvider) : Type 0 where
  team_is_public :
      teams.get_team_type team ≡ ok public_team
      → Holds g user view_c_room
      → OpenInTeam g user team teams
  of_members :
      teams.get_team_type team ≡ ok private_team
      → teams.is_team_member user team ≡ ok true
      → OpenInTeam g user team teams

-- Who may access a room: a room of type 'c' of a team as the team has it, one without a team whoever may see public
-- rooms; any room whoever has a role in it and holds a permission that opens its type; and a discussion whoever may
-- access the room that it is a discussion of.
pub data Access (g : Providers) (user : ℕ) : RoomContext → Type 0 where
  in_room_of_team :
      {room : RoomContext} (team : ℕ) (teams : TeamDataProvider)
      → room.t ≡ c
      → room.team_id ≡ some team
      → g.teams ≡ some teams
      → OpenInTeam g user team teams
      → Access g user room
  in_public_room :
      {room : RoomContext}
      → room.t ≡ c
      → room.team_id ≡ none
      → Holds g user view_c_room
      → Access g user room
  as_member :
      {room : RoomContext} (scoped : ℕ → ℕ → Result Exception (List ℕ)) (role : ℕ) (roles : List ℕ)
      (permission : ℕ)
      → g.scoped_roles ≡ some scoped
      → scoped user room.id ≡ ok (role ∷ roles)
      → Opens room.t permission
      → Holds g user permission
      → Access g user room
  by_parent :
      {room : RoomContext} (rooms : ℕ → Result Exception (Option RoomContext)) (prid : ℕ)
      (parent : RoomContext)
      → g.room_context ≡ some rooms
      → room.prid ≡ some prid
      → rooms prid ≡ ok (some parent)
      → Access g user parent
      → Access g user room

pub or_then-eq-true :
    (a b : Result Exception Bool) → or_then a b ≡ ok true → (a ≡ ok true) ⊎ (b ≡ ok true)
or_then-eq-true (ok true) b h = inl refl
or_then-eq-true (ok false) b h = inr h
or_then-eq-true (err e) b h = cc

pub or_then-first :
    (a b : Result Exception Bool) (r : Bool) → a ≡ ok true → or_then a b ≡ ok r → r ≡ true
or_then-first (ok true) b r h e = ground arith
or_then-first (ok false) b r h e = ground arith
or_then-first (err x) b r h e = ground arith

pub or_then-second :
    (a b : Result Exception Bool) (r : Bool)
    → ((s : Bool) → b ≡ ok s → s ≡ true)
    → or_then a b ≡ ok r
    → r ≡ true
or_then-second (ok true) b r h e = ground arith
or_then-second (ok false) b r h e = h r e
or_then-second (err x) b r h e = ground arith

module _ (g : Providers) (user : ℕ) where
  in_team-Access :
      (room : RoomContext) (o : Option TeamDataProvider) (team : Option ℕ)
      → room.t ≡ c
      → g.teams ≡ o
      → room.team_id ≡ team
      → in_team g o user team ≡ ok true
      → Access g user room
  in_team-Access room o none t q e h = cc
  in_team-Access room none (some team) t q e h = cc
  in_team-Access room (some teams) (some team) t q e h =
      in_room_of_team team teams t e q (typed (teams.get_team_type team) refl h)
    where
      typed :
          (r : Result Exception TeamType)
          → teams.get_team_type team ≡ r
          → (r >>= λ type. by_team_type g teams user team type) ≡ ok true
          → OpenInTeam g user team teams
      typed (ok public_team) r h = team_is_public r h
      typed (ok private_team) r h = of_members r h
      typed (err e) r h = cc

  pub validate_team-Access :
      (room : RoomContext) → validate_team g user room ≡ ok true → Access g user room
  unfolding validate_team
  validate_team-Access room h = typed room.t refl h
    where
      typed :
          (type : RoomType)
          → room.t ≡ type
          → (if is_c type then in_team g g.teams user room.team_id else ok false) ≡ ok true
          → Access g user room
      typed c t h = in_team-Access room g.teams room.team_id t refl refl h
      typed p t h = cc
      typed d t h = cc
      typed other_type t h = cc

  pub validate_public-Access :
      (room : RoomContext) → validate_public g user room ≡ ok true → Access g user room
  unfolding validate_public
  validate_public-Access room h = typed room.t room.team_id refl refl h
    where
      typed :
          (type : RoomType) (team : Option ℕ)
          → room.t ≡ type
          → room.team_id ≡ team
          → outside_teams g user type team ≡ ok true
          → Access g user room
      typed type (some team) t e h = cc
      typed c none t e h = in_public_room t e h
      typed p none t e h = cc
      typed d none t e h = cc
      typed other_type none t e h = cc

  if_permitted-Opens :
      (type : RoomType)
      → if_permitted g user (get_type_permission type) ≡ ok true
      → (permission : ℕ) × Opens type permission × Holds g user permission
  if_permitted-Opens c h = (view_c_room, public_rooms, h)
  if_permitted-Opens p h = (view_p_room, private_rooms, h)
  if_permitted-Opens d h = (view_d_room, direct_rooms, h)
  if_permitted-Opens other_type h = cc

  pub validate_membership-Access :
      (room : RoomContext) → validate_membership g user room ≡ ok true → Access g user room
  unfolding validate_membership
  validate_membership-Access room h = provided g.scoped_roles refl h
    where
      with_roles :
          (scoped : ℕ → ℕ → Result Exception (List ℕ)) (r : Result Exception (List ℕ))
          → g.scoped_roles ≡ some scoped
          → scoped user room.id ≡ r
          → (r >>= λ roles. if_member g user room roles) ≡ ok true
          → Access g user room
      with_roles scoped (err e) q s h = cc
      with_roles scoped (ok []) q s h = cc
      with_roles scoped (ok (role ∷ roles)) q s h =
          elim (or_then-eq-true (has_permission g.roles (some user) (some view_joined_room) none) _
            h) [
              | inl granted ↦ as_member scoped role roles view_joined_room q s joined granted
              | inr by_type ↦
                  let (permission, opens, granted) = if_permitted-Opens room.t by_type in
                  as_member scoped role roles permission q s opens granted
            ]

      provided :
          (o : Option (ℕ → ℕ → Result Exception (List ℕ)))
          → g.scoped_roles ≡ o
          → with_scope_provider g o user room ≡ ok true
          → Access g user room
      provided none q h = cc
      provided (some scoped) q h = with_roles scoped (scoped user room.id) q refl h

  pub parent_of-eq-some :
      (rooms : Option (ℕ → Result Exception (Option RoomContext))) (prid : Option ℕ)
      (parent : RoomContext)
      → parent_of g rooms prid ≡ ok (some parent)
      → (look : ℕ → Result Exception (Option RoomContext)) × (id : ℕ) × (rooms ≡ some look)
        × (prid ≡ some id)
        × (look id ≡ ok (some parent))
  parent_of-eq-some rooms none parent h = cc
  parent_of-eq-some none (some id) parent h = cc
  parent_of-eq-some (some look) (some id) parent h = (look, id, refl, refl, h)

  -- The two ways in which a room of a type 'c' is open without a role in it.
  OpenInTeam-validates :
      (team : ℕ) (teams : TeamDataProvider)
      → OpenInTeam g user team teams
      → in_team g (some teams) user (some team) ≡ ok true
  OpenInTeam-validates team teams (team_is_public t h) =
      ap (λ r. r >>= λ type. by_team_type g teams user team type) t ∙ h
  OpenInTeam-validates team teams (of_members t h) =
      ap (λ r. r >>= λ type. by_team_type g teams user team type) t ∙ h

  pub validate_team-eq-true :
      (room : RoomContext) (team : ℕ) (teams : TeamDataProvider)
      → room.t ≡ c
      → room.team_id ≡ some team
      → g.teams ≡ some teams
      → OpenInTeam g user team teams
      → validate_team g user room ≡ ok true
  unfolding validate_team
  validate_team-eq-true room team teams t e q way =
      ap (λ type. if is_c type then in_team g g.teams user room.team_id else ok false) t
      ∙ ap (λ o. in_team g o user room.team_id) q
      ∙ ap (λ o. in_team g (some teams) user o) e
      ∙ OpenInTeam-validates team teams way

  pub validate_public-eq-true :
      (room : RoomContext)
      → room.t ≡ c
      → room.team_id ≡ none
      → Holds g user view_c_room
      → validate_public g user room ≡ ok true
  unfolding validate_public
  validate_public-eq-true room t e h =
      ap (λ o. outside_teams g user room.t o) e
      ∙ ap
          (λ type.
            if is_c type
            then has_permission g.roles (some user) (some view_c_room) none
            else ok false)
          t
      ∙ h

  -- Whoever holds a permission that opens the room is let in, unless the check fails.
  if_member-answers :
      (room : RoomContext) (role : ℕ) (roles : List ℕ) (permission : ℕ) (b : Bool)
      → Opens room.t permission
      → Holds g user permission
      → if_member g user room (role ∷ roles) ≡ ok b
      → b ≡ true
  if_member-answers room role roles permission b opens holds h =
      typed room.t permission opens holds h
    where
      typed :
          (type : RoomType) (permission : ℕ)
          → Opens type permission
          → Holds g user permission
          → or_then
              (has_permission g.roles (some user) (some view_joined_room) none)
              (if_permitted g user (get_type_permission type))
            ≡ ok b
          → b ≡ true
      typed type permission joined holds h = or_then-first _ _ b holds h
      typed type permission public_rooms holds h =
          or_then-second _ _ b
            (λ s e.
              or_then-first _ (ok false) s holds
                (ap (λ r. or_then r (ok false)) holds ∙ sym holds ∙ e))
            h
      typed type permission private_rooms holds h =
          or_then-second _ _ b
            (λ s e.
              or_then-first _ (ok false) s holds
                (ap (λ r. or_then r (ok false)) holds ∙ sym holds ∙ e))
            h
      typed type permission direct_rooms holds h =
          or_then-second _ _ b
            (λ s e.
              or_then-first _ (ok false) s holds
                (ap (λ r. or_then r (ok false)) holds ∙ sym holds ∙ e))
            h

  pub validate_membership-answers :
      (room : RoomContext) (scoped : ℕ → ℕ → Result Exception (List ℕ)) (role : ℕ) (roles : List ℕ)
      (permission : ℕ) (b : Bool)
      → g.scoped_roles ≡ some scoped
      → scoped user room.id ≡ ok (role ∷ roles)
      → Opens room.t permission
      → Holds g user permission
      → validate_membership g user room ≡ ok b
      → b ≡ true
  unfolding validate_membership
  validate_membership-answers room scoped role roles permission b q s opens holds h =
      if_member-answers room role roles permission b opens holds (
        sym (
          ap (λ o. with_scope_provider g o user room) q
          ∙ ap (λ r. r >>= λ roles. if_member g user room roles) s)
        ∙ h)
