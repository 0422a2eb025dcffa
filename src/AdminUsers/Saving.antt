-- ===== src/AdminUsers/Saving.antt =====
-- The dialog from the click on "Save" to the end of its requests.
use touhou_cloud_music_thcdb.Common.{
  ◌≡◌, refl, ap, inl, inr, true, false, Option, none, some, List, [], Text, Option-cases,
}
use touhou_cloud_music_thcdb.AdminUsers.{
  AdminUserItem, RoleEditorState, editing_user, begin_edit, on_open_change, begin_save, settle_save,
  settle_flush, reset,
}

-- What the dialog shows after the reply to a save: the first id and roles where it failed.
abbrev pub Settles : RoleEditorState → Option Text → RoleEditorState → Type 0
Settles s (some message) done =
    (done.editing_user_id ≡ s.editing_user_id)
    × (done.draft_roles ≡ s.draft_roles)
    × (done.save_error ≡ some message)
    × (done.is_saving ≡ false)
Settles s none done =
    (done.editing_user_id ≡ none)
    × (done.draft_roles ≡ [])
    × (done.save_error ≡ none)
    × (done.is_saving ≡ true)

-- The state while a save is on its way.
abbrev pub saving : RoleEditorState → RoleEditorState
saving s = record s { is_saving = true; save_error = none }

begin_save-sent :
    (users : List AdminUserItem) (user : AdminUserItem) (s : RoleEditorState)
    → editing_user users s.editing_user_id ≡ some user
    → s.is_saving ≡ false
    → begin_save users s ≡ (saving s, some (user.id, s.draft_roles))
unfolding begin_save
begin_save-sent users user s h k = simp (begin_save, h, k)

begin_save-busy :
    (users : List AdminUserItem) (s : RoleEditorState)
    → s.is_saving ≡ true
    → begin_save users s ≡ (s, none)
unfolding begin_save
begin_save-busy users s k = elim (Option-cases (editing_user users s.editing_user_id)) [
  | inl e ↦ simp (begin_save, e)
  | inr (u, e) ↦ simp (begin_save, e, k)
]

saving-Settles :
    (s : RoleEditorState) (reply : Option Text) → Settles s reply (settle_save reply (saving s)).0
unfolding settle_save reset
saving-Settles s none = (refl, refl, refl, refl)
saving-Settles s (some message) = (refl, refl, refl, refl)

-- Where a listed user is edited and no save is on its way, a save sends the user's id and the
-- selected roles; until its reply no second save is sent and the dialog cannot be closed. A failure
-- keeps the dialog with its roles and shows why; a success closes it.
pub save_cycle :
    (users : List AdminUserItem) (user : AdminUserItem) (s : RoleEditorState) (reply : Option Text)
    → editing_user users s.editing_user_id ≡ some user
    → s.is_saving ≡ false
    → let sent = (begin_save users s).0 in
      ((begin_save users s).1 ≡ some (user.id, s.draft_roles))
      × ((begin_save users sent).1 ≡ none)
      × (on_open_change false sent ≡ sent)
      × Settles s reply (settle_save reply sent).0
unfolding on_open_change
save_cycle users user s reply h k =
    rw (begin_save-sent users user s h k)
      (refl, ap (λ r. r.1) (begin_save-busy users (saving s) refl), refl, saving-Settles s reply)

-- The roles of a user are saved, and before the reload of the current user has ended, the roles of
-- another are edited: these cannot be saved meanwhile, and if the reload fails, its message is
-- shown as the error of that other user's roles.
pub late_flush_error :
    (users : List AdminUserItem) (a b : AdminUserItem) (s : RoleEditorState) (message : Text)
    (roles : Option (List Text))
    → editing_user users s.editing_user_id ≡ some a
    → s.is_saving ≡ false
    → let saved = (settle_save none (begin_save users s).0).0 in
      let other = begin_edit b saved in
      let done = (settle_flush (some message) roles other).0 in
      ((begin_save users other).1 ≡ none)
      × (done.editing_user_id ≡ some b.id)
      × (done.save_error ≡ some message)
unfolding settle_save settle_flush begin_edit reset
late_flush_error users a b s message roles h k = rw (begin_save-sent users a s h k) (
  ap (λ r. r.1) (begin_save-busy users (begin_edit b (settle_save none (saving s)).0) refl),
  refl,
  refl,
)
