-- ===== src/Authorization/Catalogue.antt =====
-- libs/authorization/src/constants: permission-ids.ts, permissions.ts and role.ts, the permissions and the roles
-- that the system knows by default, with the roles that have each permission.
mod Rule
use ocean_chat_private.Prelude.{ℕ, List, [], ◌∷◌, Option, none, some, ◌==◌, if◌then◌else◌}

-- `PermissionId`, by the texts of its values.
pub data PermissionId : Type 0 where
  access_permissions access_setting_permissions assign_admin_role assign_roles view_logs
        view_statistics :
      PermissionId
  view_user_administration manage_selected_settings edit_privileged_setting view_privileged_setting
        run_migration api_bypass_rate_limit :
      PermissionId
  create_user delete_user view_full_other_user_info edit_other_user_info edit_other_user_password
        edit_other_user_avatar :
      PermissionId
  create_personal_access_tokens logout_other_user create_c create_p create_d view_c_room :
      PermissionId
  add_user_to_any_c_room kick_user_from_any_c_room delete_c view_p_room add_user_to_any_p_room
        kick_user_from_any_p_room :
      PermissionId
  delete_p view_d_room view_joined_room view_history add_user_to_joined_room archive_room :
      PermissionId
  unarchive_room edit_room edit_room_avatar leave_c leave_p preview_c_room : PermissionId
  set_moderator set_owner set_leader remove_user ban_user mute_user : PermissionId
  delete_message delete_own_message force_delete_message edit_message pin_message post_readonly :
      PermissionId
  set_readonly set_react_when_readonly mention_all mention_here bypass_time_limit_edit_and_delete
        view_l_room :
      PermissionId
  view_livechat_manager manage_livechat_agents create_team delete_team edit_team add_team_member :
      PermissionId
  view_all_teams : PermissionId

-- The names of the roles.
pub data Role : Type 0 where
  admin user bot app guest anonymous : Role
  owner moderator leader livechat_agent livechat_manager livechat_monitor : Role

-- The scope of a role: global, or within a room.
pub data Scope : Type 0 where
  users subscriptions : Scope

-- IDefaultRole and IPermissionDefinition, without the descriptions.
pub record DefaultRole : Type 0 where
  pub name : Role
  pub scope : Scope

pub record PermissionDefinition : Type 0 where
  pub id : PermissionId
  pub roles : List Role

-- `defaultRoles`.
abbrev pub default_role : Role → Scope → DefaultRole
default_role name scope = record { name = name; scope = scope }

unfoldable pub default_roles : List DefaultRole
default_roles =
    default_role admin users
    ∷ default_role user users
    ∷ default_role bot users
    ∷ default_role app users
    ∷ default_role guest users
    ∷ default_role anonymous users
    ∷ default_role owner subscriptions
    ∷ default_role moderator subscriptions
    ∷ default_role leader subscriptions
    ∷ default_role livechat_agent users
    ∷ default_role livechat_manager users
    ∷ default_role livechat_monitor users
    ∷ []

-- `permissions`.
abbrev pub definition : PermissionId → List Role → PermissionDefinition
definition id roles = record { id = id; roles = roles }

unfoldable pub permissions : List PermissionDefinition
permissions =
    definition access_permissions (admin ∷ [])
    ∷ definition access_setting_permissions (admin ∷ [])
    ∷ definition assign_admin_role (admin ∷ [])
    ∷ definition assign_roles (admin ∷ [])
    ∷ definition view_logs (admin ∷ [])
    ∷ definition view_statistics (admin ∷ [])
    ∷ definition view_user_administration (admin ∷ [])
    ∷ definition manage_selected_settings (admin ∷ [])
    ∷ definition edit_privileged_setting (admin ∷ [])
    ∷ definition view_privileged_setting (admin ∷ [])
    ∷ definition run_migration (admin ∷ [])
    ∷ definition api_bypass_rate_limit (admin ∷ bot ∷ app ∷ [])
    ∷ definition create_user (admin ∷ [])
    ∷ definition delete_user (admin ∷ [])
    ∷ definition view_full_other_user_info (admin ∷ [])
    ∷ definition edit_other_user_info (admin ∷ [])
    ∷ definition edit_other_user_password (admin ∷ [])
    ∷ definition edit_other_user_avatar (admin ∷ [])
    ∷ definition create_personal_access_tokens (admin ∷ user ∷ [])
    ∷ definition logout_other_user (admin ∷ [])
    ∷ definition create_c (admin ∷ user ∷ bot ∷ app ∷ [])
    ∷ definition create_p (admin ∷ user ∷ bot ∷ app ∷ [])
    ∷ definition create_d (admin ∷ user ∷ bot ∷ app ∷ [])
    ∷ definition view_c_room (admin ∷ user ∷ bot ∷ app ∷ [])
    ∷ definition add_user_to_any_c_room (admin ∷ [])
    ∷ definition kick_user_from_any_c_room (admin ∷ [])
    ∷ definition delete_c (admin ∷ owner ∷ [])
    ∷ definition view_p_room (admin ∷ user ∷ guest ∷ [])
    ∷ definition add_user_to_any_p_room []
    ∷ definition kick_user_from_any_p_room []
    ∷ definition delete_p (admin ∷ owner ∷ [])
    ∷ definition view_d_room (admin ∷ user ∷ bot ∷ app ∷ guest ∷ [])
    ∷ definition view_joined_room (guest ∷ bot ∷ app ∷ [])
    ∷ definition view_history (admin ∷ user ∷ [])
    ∷ definition add_user_to_joined_room (admin ∷ owner ∷ moderator ∷ [])
    ∷ definition archive_room (admin ∷ owner ∷ [])
    ∷ definition unarchive_room (admin ∷ [])
    ∷ definition edit_room (admin ∷ owner ∷ moderator ∷ [])
    ∷ definition edit_room_avatar (admin ∷ owner ∷ moderator ∷ [])
    ∷ definition leave_c (admin ∷ user ∷ bot ∷ app ∷ [])
    ∷ definition leave_p (admin ∷ user ∷ bot ∷ app ∷ [])
    ∷ definition preview_c_room (admin ∷ user ∷ [])
    ∷ definition set_moderator (admin ∷ owner ∷ [])
    ∷ definition set_owner (admin ∷ owner ∷ [])
    ∷ definition set_leader (admin ∷ owner ∷ [])
    ∷ definition remove_user (admin ∷ owner ∷ moderator ∷ [])
    ∷ definition ban_user (admin ∷ owner ∷ moderator ∷ [])
    ∷ definition mute_user (admin ∷ owner ∷ moderator ∷ [])
    ∷ definition delete_message (admin ∷ owner ∷ moderator ∷ [])
    ∷ definition delete_own_message (admin ∷ user ∷ [])
    ∷ definition force_delete_message (admin ∷ owner ∷ [])
    ∷ definition edit_message (admin ∷ owner ∷ moderator ∷ [])
    ∷ definition pin_message (owner ∷ moderator ∷ admin ∷ [])
    ∷ definition post_readonly (admin ∷ owner ∷ moderator ∷ [])
    ∷ definition set_readonly (admin ∷ owner ∷ [])
    ∷ definition set_react_when_readonly (admin ∷ owner ∷ [])
    ∷ definition mention_all (admin ∷ owner ∷ moderator ∷ user ∷ [])
    ∷ definition mention_here (admin ∷ owner ∷ moderator ∷ user ∷ [])
    ∷ definition bypass_time_limit_edit_and_delete (bot ∷ app ∷ [])
    ∷ definition view_l_room (livechat_manager ∷ livechat_monitor ∷ livechat_agent ∷ admin ∷ [])
    ∷ definition view_livechat_manager (livechat_manager ∷ livechat_monitor ∷ admin ∷ [])
    ∷ definition manage_livechat_agents (livechat_manager ∷ livechat_monitor ∷ admin ∷ [])
    ∷ definition create_team (admin ∷ user ∷ [])
    ∷ definition delete_team (admin ∷ owner ∷ [])
    ∷ definition edit_team (admin ∷ owner ∷ [])
    ∷ definition add_team_member (admin ∷ owner ∷ moderator ∷ [])
    ∷ definition view_all_teams (admin ∷ [])
    ∷ []

-- Names are compared by numbers that stand for them.
unfoldable pub permission_number : PermissionId → ℕ
permission_number access_permissions = 0
permission_number access_setting_permissions = 1
permission_number assign_admin_role = 2
permission_number assign_roles = 3
permission_number view_logs = 4
permission_number view_statistics = 5
permission_number view_user_administration = 6
permission_number manage_selected_settings = 7
permission_number edit_privileged_setting = 8
permission_number view_privileged_setting = 9
permission_number run_migration = 10
permission_number api_bypass_rate_limit = 11
permission_number create_user = 12
permission_number delete_user = 13
permission_number view_full_other_user_info = 14
permission_number edit_other_user_info = 15
permission_number edit_other_user_password = 16
permission_number edit_other_user_avatar = 17
permission_number create_personal_access_tokens = 18
permission_number logout_other_user = 19
permission_number create_c = 20
permission_number create_p = 21
permission_number create_d = 22
permission_number view_c_room = 23
permission_number add_user_to_any_c_room = 24
permission_number kick_user_from_any_c_room = 25
permission_number delete_c = 26
permission_number view_p_room = 27
permission_number add_user_to_any_p_room = 28
permission_number kick_user_from_any_p_room = 29
permission_number delete_p = 30
permission_number view_d_room = 31
permission_number view_joined_room = 32
permission_number view_history = 33
permission_number add_user_to_joined_room = 34
permission_number archive_room = 35
permission_number unarchive_room = 36
permission_number edit_room = 37
permission_number edit_room_avatar = 38
permission_number leave_c = 39
permission_number leave_p = 40
permission_number preview_c_room = 41
permission_number set_moderator = 42
permission_number set_owner = 43
permission_number set_leader = 44
permission_number remove_user = 45
permission_number ban_user = 46
permission_number mute_user = 47
permission_number delete_message = 48
permission_number delete_own_message = 49
permission_number force_delete_message = 50
permission_number edit_message = 51
permission_number pin_message = 52
permission_number post_readonly = 53
permission_number set_readonly = 54
permission_number set_react_when_readonly = 55
permission_number mention_all = 56
permission_number mention_here = 57
permission_number bypass_time_limit_edit_and_delete = 58
permission_number view_l_room = 59
permission_number view_livechat_manager = 60
permission_number manage_livechat_agents = 61
permission_number create_team = 62
permission_number delete_team = 63
permission_number edit_team = 64
permission_number add_team_member = 65
permission_number view_all_teams = 66

-- Names are compared by numbers that stand for them.
unfoldable pub role_number : Role → ℕ
role_number admin = 0
role_number user = 1
role_number bot = 2
role_number app = 3
role_number guest = 4
role_number anonymous = 5
role_number owner = 6
role_number moderator = 7
role_number leader = 8
role_number livechat_agent = 9
role_number livechat_manager = 10
role_number livechat_monitor = 11

-- The definition of a permission, and the scope of a role.
unfoldable pub definition_of :
    PermissionId → List PermissionDefinition → Option PermissionDefinition
unfolding permission_number
definition_of p [] = none
definition_of p (d ∷ ds) =
    let rest = definition_of p ds in
    if permission_number d.id == permission_number p then some d else rest

unfoldable pub scope_of : Role → List DefaultRole → Option Scope
unfolding role_number
scope_of r [] = none
scope_of r (d ∷ ds) =
    let rest = scope_of r ds in if role_number d.name == role_number r then some d.scope else rest
