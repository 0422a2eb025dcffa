-- ===== src/AuthForm.antt =====
-- The sign-in, sign-up and verification forms: useAuthForm of
-- web/frontend/src/view/auth/store/index.ts.
-- A handler that awaits a request is two functions: what it does up to the request, with the
-- request, and what it does with the reply. Other events may come between the two.
pub mod Interface
pub mod Resend
pub mod Success
pub mod System
pub mod Interleaving
pub mod Instance
mod Examples
use touhou_cloud_music_thcdb.Common.{
  ℕ, zero, suc, Bool, true, false, ◌||◌, not, Option, none, some, Text, text_eq, codes, ltb,
  if◌then◌else◌,
}
use touhou_cloud_music_thcdb.Api.{Either, left, right, ApiError}
use touhou_cloud_music_thcdb.VerifyEmail.{
  Mode, sign_in, sign_up, verify_email, VerifyEmailState, inactive, missing_session, ready,
  resending, cooldown, VerifyEmailEvent, sync, seed_after_signup, start_resend, resend_failed,
  resend_success, tick, email_of, truthy, update_verify_email_state, save_verification_email,
  clear_verification_email,
}
use touhou_cloud_music_thcdb.AuthForm.Interface.{Users}

-- `resolveAuthFormMode`
unfoldable pub resolve_auth_form_mode : Option Text → Mode
resolve_auth_form_mode none = sign_in
resolve_auth_form_mode (some value) =
    if text_eq value (codes "sign_up")
    then sign_up
    else if text_eq value (codes "verify_email")
    then verify_email
    else sign_in

abbrev pub same_mode : Mode → Mode → Bool
same_mode sign_in sign_in = true
same_mode sign_up sign_up = true
same_mode verify_email verify_email = true
same_mode _ _ = false

pub data Route : Type 0 where
  home auth : Route

-- The body of a request of `AuthApi`.
pub data Request : Type 0 where
  signin : (username password : Text) → Request
  signup : (username email password : Text) → Request
  verify : (email code : Text) → Request
  resend : (email : Text) → Request

abbrev pub missing_signup_email : Text
missing_signup_email = codes "Missing sign-up email. Create the account again."

abbrev pub verification_email_sent : Text
verification_email_sent = codes "If eligible, a verification code has been sent."

module _ (users : Users) where
  open users use {Store, Profile, sign_in as sign_in_user}

  -- The signals of the form, the remembered address of session.ts, the user store and the route.
  pub record Form : Type 0 where
    pub mode : Mode
    pub submit_error : Option Text
    pub submit_info : Option Text
    pub verify_email_state : VerifyEmailState
    pub verification_email : Option Text
    pub store : Store
    pub route : Route

-- The operations that do not touch the user store.
module _ {users : Users} where
  abbrev pub update_state : VerifyEmailEvent → Form users → Form users
  update_state ev f = record f {
    verify_email_state = update_verify_email_state f.verification_email f.verify_email_state ev;
  }

  abbrev pub set_error : Text → Form users → Form users
  set_error m f = record f { submit_error = some m }

  -- the two effects that depend on `mode()`
  abbrev mode_effects : Form users → Form users
  mode_effects f = update_state (sync f.mode) (record f { submit_error = none; submit_info = none })

  -- A write of an equal mode runs no effect.
  unfoldable pub set_mode : Mode → Form users → Form users
  unfolding update_verify_email_state
  set_mode m f = if same_mode f.mode m then f else mode_effects (record f { mode = m })

  unfoldable pub navigate_auth : Option Text → Form users → Form users
  unfolding set_mode resolve_auth_form_mode
  navigate_auth type f = set_mode (resolve_auth_form_mode type) (record f { route = auth })

  -- the interval of one second, which runs in the state `cooldown` only
  unfoldable pub tick_second : Form users → Form users
  unfolding update_verify_email_state
  tick_second f = update_state tick f

  unfoldable pub resend_cooldown_seconds : Form users → ℕ
  resend_cooldown_seconds f = elim f.verify_email_state [ cooldown e n ↦ n | _ ↦ 0 ]

  unfoldable pub is_resending : Form users → Bool
  is_resending f = elim f.verify_email_state [ resending e ↦ true | _ ↦ false ]

  unfoldable pub is_missing_session : Form users → Bool
  is_missing_session f = elim f.verify_email_state [ missing_session ↦ true | _ ↦ false ]

  unfoldable pub begin_sign_in : Text → Text → Form users → Form users × Option Request
  begin_sign_in identifier password f = (f, some (signin identifier password))

  unfoldable pub begin_sign_up : Text → Text → Text → Form users → Form users × Option Request
  begin_sign_up username email password f = (f, some (signup username email password))

  unfoldable pub begin_verify_email : Text → Form users → Form users × Option Request
  begin_verify_email code f = elim (email_of f.verify_email_state) [
    | none ↦ (set_error missing_signup_email f, none)
    | some email ↦ (f, some (verify email code))
  ]

  abbrev start_resending : Form users → Form users
  start_resending f =
      update_state start_resend (record f { submit_error = none; submit_info = none })

  unfoldable pub begin_resend : Form users → Form users × Option Request
  unfolding update_verify_email_state is_resending resend_cooldown_seconds
  begin_resend f = elim (truthy (email_of f.verify_email_state)) [
    | none ↦ (set_error missing_signup_email f, none)
    | some email ↦
        if is_resending f || ltb 0 (resend_cooldown_seconds f)
        then (f, none)
        else (start_resending f, some (resend email))
  ]

  -- `data.resend_cooldown_seconds`
  unfoldable pub settle_sign_up : Text → Either ApiError ℕ → Form users → Form users
  unfolding update_verify_email_state navigate_auth save_verification_email
  settle_sign_up email (left e) f = set_error e.error f
  settle_sign_up email (right seconds) f =
      let saved = record f { verification_email = save_verification_email email } in
      navigate_auth (some (codes "verify_email"))
        (update_state (seed_after_signup email seconds) saved)

  unfoldable pub settle_resend : Either ApiError ℕ → Form users → Form users
  unfolding update_verify_email_state
  settle_resend (left e) f = update_state resend_failed (set_error e.error f)
  settle_resend (right seconds) f =
      update_state (resend_success seconds)
        (record f { submit_info = some verification_email_sent })

-- The replies that sign a user in.
module _ (users : Users) where
  open users use {Profile, sign_in as sign_in_user}

  abbrev admit : Profile → Form users → Form users
  admit user f = record f {
    verification_email = clear_verification_email;
    store = sign_in_user user f.store;
    route = home;
  }

  unfoldable pub settle_sign_in : Either ApiError Profile → Form users → Form users
  unfolding clear_verification_email
  settle_sign_in (left e) f = set_error e.error f
  settle_sign_in (right user) f = admit user f

  unfoldable pub settle_verify_email : Either ApiError Profile → Form users → Form users
  unfolding clear_verification_email
  settle_verify_email (left e) f = set_error e.error f
  settle_verify_email (right user) f = admit user f
