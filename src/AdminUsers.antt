-- ===== src/AdminUsers.antt =====
-- The page of the administrator: web/frontend/src/view/admin/users.tsx, with `hasAdminRole` of
-- component/route.tsx. `onSave` is split at its two requests: `begin_save` up to the first,
-- `settle_save` from its reply to the reload of the current user, `settle_flush` from the end of
-- that one. The list of users is an argument.
pub mod Roles
pub mod Saving
mod Examples
use touhou_cloud_music_thcdb.Common.{
  ℕ, zero, suc, Bool, true, false, not, ◌&&◌, ◌||◌, Option, none, some, List, [], ◌∷◌, ◌++◌, ◌==◌,
  Text, codes, text_eq, nonempty, is_some, if◌then◌else◌,
}

-- A user with the names of the user's roles.
pub record AdminUserItem : Type 0 where
  pub id : ℕ
  pub roles : List Text

pub record RoleEditorState : Type 0 where
  pub editing_user_id : Option ℕ
  pub draft_roles : List Text
  pub save_error : Option Text
  pub is_saving : Bool

abbrev pub admin : Text
admin = codes "Admin"

abbrev pub moderator : Text
moderator = codes "Moderator"

-- `Set.prototype.has`
abbrev pub has_role : List Text → Text → Bool
has_role [] role = false
has_role (r ∷ roles) role = text_eq r role || has_role roles role

unfoldable pub has_admin_role : Option (List Text) → Bool
has_admin_role none = false
has_admin_role (some roles) = has_role roles admin

-- `new Set(roles)` keeps the first of each.
unfoldable pub set_of : List Text → List Text → List Text
set_of seen [] = seen
set_of seen (r ∷ roles) =
    let kept = set_of seen roles in
    let added = set_of (seen ++ (r ∷ [])) roles in if has_role seen r then kept else added

unfoldable pub delete_role : Text → List Text → List Text
delete_role role [] = []
delete_role role (r ∷ roles) =
    let rest = delete_role role roles in if text_eq r role then rest else r ∷ rest

unfoldable pub toggle_role_selection : List Text → Text → Bool → List Text
unfolding set_of delete_role
toggle_role_selection selected_roles role checked =
    let next = set_of [] selected_roles in
    if checked
    then (if has_role next role then next else next ++ (role ∷ []))
    else delete_role role next

unfoldable pub new_role_editor : RoleEditorState
new_role_editor = record {
  editing_user_id = none;
  draft_roles = [];
  save_error = none;
  is_saving = false;
}

unfoldable pub reset : RoleEditorState → RoleEditorState
reset s = record s { editing_user_id = none; draft_roles = []; save_error = none }

-- The roles that can be edited.
unfoldable pub editable : List Text → List Text
editable [] = []
editable (r ∷ roles) = let rest = editable roles in if text_eq r moderator then r ∷ rest else rest

unfoldable pub begin_edit : AdminUserItem → RoleEditorState → RoleEditorState
unfolding editable
begin_edit user s = record s {
  editing_user_id = some user.id;
  draft_roles = editable user.roles;
  save_error = none;
}

abbrev pub is_id : Option ℕ → ℕ → Bool
is_id none id = false
is_id (some n) id = id == n

-- `users().find((user) => user.id === editingUserId)`
unfoldable pub editing_user : List AdminUserItem → Option ℕ → Option AdminUserItem
editing_user [] id = none
editing_user (u ∷ users) id = if is_id id u.id then some u else editing_user users id

unfoldable pub on_open_change : Bool → RoleEditorState → RoleEditorState
unfolding reset
on_open_change is_open s = if not is_open && not s.is_saving then reset s else s

unfoldable pub on_roles_change : List Text → RoleEditorState → RoleEditorState
on_roles_change roles s = record s { draft_roles = roles; save_error = none }

-- The request for new roles, if one is sent: the id and the roles.
unfoldable pub begin_save :
    List AdminUserItem → RoleEditorState → RoleEditorState × Option (ℕ × List Text)
begin_save users s = elim (editing_user users s.editing_user_id) [
  | none ↦ (s, none)
  | some user ↦
      if s.is_saving
      then (s, none)
      else (record s { is_saving = true; save_error = none }, some (user.id, s.draft_roles))
]

-- The reply, `none` for a success; whether the current user is loaded again.
unfoldable pub settle_save : Option Text → RoleEditorState → RoleEditorState × Bool
unfolding reset
settle_save none s = (reset s, true)
settle_save (some message) s = (record s { save_error = some message; is_saving = false }, false)

-- The end of that load, with its error and the roles of the current user; whether the list of users
-- is asked for again.
unfoldable pub settle_flush :
    Option Text → Option (List Text) → RoleEditorState → RoleEditorState × Bool
unfolding has_admin_role
settle_flush none roles s = (record s { is_saving = false }, has_admin_role roles)
settle_flush (some message) roles s =
    (record s { save_error = some message; is_saving = false }, false)

-- The parameters of the address.
pub record AdminUsersSearch : Type 0 where
  pub page : ℕ
  pub limit : ℕ
  pub keyword : Option Text

-- The search with the text of the input.
unfoldable pub submit : Text → AdminUsersSearch → AdminUsersSearch
submit value s = record s { page = 1; keyword = if nonempty value then some value else none }

unfoldable pub clear : AdminUsersSearch → AdminUsersSearch
clear s = record s { page = 1; keyword = none }

unfoldable pub change_page : ℕ → AdminUsersSearch → AdminUsersSearch
change_page page s = record s { page = page }
