-- ===== src/ResetPassword/Storage.antt =====
-- What the session storage brings back when the page is loaded again.
use touhou_cloud_music_thcdb.Common.{
  ◌≡◌, ◌↔◌, ◌⊎◌, true, false, Option, none, some, Text, nonempty, trim, ℤ, arith, if◌then◌else◌,
}
use touhou_cloud_music_thcdb.ResetPassword.Session.{
  holding, load_stored_string, save_stored_string, Memory, Codec, ResetPasswordSession,
  get_reset_password_session, clear_reset_password_session, save_reset_password_email,
  save_reset_password_session, mark_reset_password_success, start, throws, misfit, is_active,
  normalize_reset_password_session, normalize_reset_password_email, clear_reset_password_success,
  clear_reset_password_email,
}

-- The session is given out exactly when it is remembered and has not expired; after that, what is
-- remembered is what was given out, and the address and the success are as they were.
pub get-session_lem :
    (now : ℤ) (m : Memory)
    → let (after, given) = get_reset_password_session now m in
      ((s : ResetPasswordSession)
        → (given ≡ some s) ↔ ((m.session ≡ some s) × (is_active now s ≡ true)))
      × (after.session ≡ given)
      × (after.email ≡ m.email)
      × (after.success ≡ m.success)
unfolding get_reset_password_session clear_reset_password_session
get-session_lem now m = (λ s. ground arith, ground arith, ground arith, ground arith)

module _ (codec : Codec) where
  -- An address and a session that are saved at one time, with a storage that works, and loaded at a
  -- later time: the address comes back trimmed, unless nothing is left of it, and the session comes
  -- back when it is active at both times.
  pub start-save :
      (saved_at loaded_at : ℤ) (address : Text) (session : ResetPasswordSession) (m : Memory)
      (e s : Option Text)
      → m.storage ≡ holding e s
      → let kept =
          save_reset_password_session codec saved_at session
            (save_reset_password_email address m) in
        let again = start codec loaded_at kept.storage in
        (again.email ≡ kept.email)
        × (again.email ≡ (if nonempty (trim address) then some (trim address) else none))
        × (again.session ≡ (
            if is_active saved_at session
            then normalize_reset_password_session loaded_at session
            else none))
        × (again.success ≡ false)
  unfolding save_reset_password_session save_reset_password_email start save_stored_string
      load_stored_string normalize_reset_password_session normalize_reset_password_email
      clear_reset_password_success
  start-save saved_at loaded_at address session m e s h =
      ground (arith, codec.parse-stringify session)

  -- After a reset that succeeded, nothing of it is remembered, and a page that is loaded from a
  -- storage that works does not remember more.
  pub mark-success_lem :
      (loaded_at : ℤ) (m : Memory)
      → let marked = mark_reset_password_success m in
        let again = start codec loaded_at marked.storage in
        (marked.session ≡ none)
        × (marked.email ≡ none)
        × (marked.success ≡ true)
        × (again.session ≡ none)
        × (again.email ≡ none)
        × (again.success ≡ false)
  unfolding mark_reset_password_success clear_reset_password_email clear_reset_password_session
      start save_stored_string load_stored_string
  mark-success_lem loaded_at m = ground arith

-- A stored session that the decoder does not accept is not remembered. A text that is not JSON is
-- removed from the storage; one that is JSON of another form stays.
pub start-unreadable :
    (codec : Codec) (now : ℤ) (e : Option Text) (text : Text)
    → ((codec.parse text ≡ throws) ⊎ (codec.parse text ≡ misfit))
    → let m = start codec now (holding e (some text)) in
      (m.session ≡ none)
      × (m.email ≡ e)
      × ((m.storage ≡ holding e none) ↔ (codec.parse text ≡ throws))
unfolding start save_stored_string load_stored_string
start-unreadable codec now e text h = ground arith
