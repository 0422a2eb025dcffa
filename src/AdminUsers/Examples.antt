-- ===== src/AdminUsers/Examples.antt =====
-- Two users, one of them a moderator.
use touhou_cloud_music_thcdb.Common.{◌≡◌, refl, false, none, some, List, [], ◌∷◌, codes, text_eq}
use touhou_cloud_music_thcdb.AdminUsers.{
  AdminUserItem, RoleEditorState, moderator, new_role_editor, begin_edit, editable, begin_save,
  settle_save, settle_flush, editing_user,
}
use touhou_cloud_music_thcdb.AdminUsers.Saving.{late_flush_error}

abbrev first : AdminUserItem
first = record { id = 1; roles = codes "User" ∷ moderator ∷ [] }

abbrev second : AdminUserItem
second = record { id = 2; roles = codes "User" ∷ [] }

abbrev users : List AdminUserItem
users = first ∷ second ∷ []

abbrev editing : RoleEditorState
editing = record {
  editing_user_id = some 1;
  draft_roles = moderator ∷ [];
  save_error = none;
  is_saving = false;
}

first_user_is_edited : begin_edit first new_role_editor ≡ editing
unfolding begin_edit editable new_role_editor text_eq
first_user_is_edited = refl

late_flush_error_example :
    let saved = (settle_save none (begin_save users editing).0).0 in
    let other = begin_edit second saved in
    let done = (settle_flush (some (codes "offline")) none other).0 in
    ((begin_save users other).1 ≡ none)
    × (done.editing_user_id ≡ some 2)
    × (done.save_error ≡ some (codes "offline"))
unfolding editing_user
late_flush_error_example =
    late_flush_error users first second editing (codes "offline") none refl refl
