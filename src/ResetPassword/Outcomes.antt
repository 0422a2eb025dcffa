-- ===== src/ResetPassword/Outcomes.antt =====
-- What each reply makes of the page.
use touhou_cloud_music_thcdb.Common.{
  ◌≡◌, refl, ◌↔◌, ◌⊎◌, Bool, true, false, Option, none, some, Text, nonempty, trim, ℤ, ltb,
  if◌then◌else◌, arith, text_eq,
}
use touhou_cloud_music_thcdb.Api.{Either, left, right}
use touhou_cloud_music_thcdb.ResetPassword.Session.{
  Storage, closed, holding, Codec, ResetPasswordSession, get_reset_password_session,
  save_reset_password_email, save_reset_password_session, clear_reset_password_success, is_active,
  normalize_reset_password_session, normalize_reset_password_email,
}
use touhou_cloud_music_thcdb.ResetPassword.Response.{
  FlowError, ForgotPasswordPayload, get_reset_password_error_message, Unknown,
}
use touhou_cloud_music_thcdb.ResetPassword.UiStore.{
  is_cooling_down, start_send_code, end_send_code_with_error, end_send_code_with_success,
  end_verify_code_with_error, end_verify_code_with_success, set_verification_code_expires_minutes,
  set_cooldown,
}
use touhou_cloud_music_thcdb.ResetPassword.Page.{
  Page, View, reset, forgot_password, start_cooldown, render, navigate, verify_view, reset_view,
  success_view, wanted_view, unmount, mount,
}
use touhou_cloud_music_thcdb.ResetPassword.Flows.{
  handle_send_code, settle_send_code, settle_verify_code, invalid_or_expired_reset_key,
}

abbrev pub message_of : {A : Type 0} → Either FlowError A → Option Text
message_of (left x) = some (get_reset_password_error_message x)
message_of (right _) = none

-- What the reply says, or what was there if it is an error.
abbrev pub reply_or : {A B : Type 0} → Either FlowError A → (A → B) → B → B
reply_or (left _) said old = old
reply_or (right a) said old = said a

-- A code is asked for exactly when none is being sent, no cooldown runs and the address is not
-- blank, and then for the address without the spaces around it. Either the page stays as it is and
-- nothing is asked for, or it is sending and shows no error of an earlier request.
pub handle_send_code-request_iff :
    (input : Text) (p : Page)
    → let (after, request) = handle_send_code input p in
      ((email : Text)
        → (request ≡ some email) ↔ (
            (p.ui.is_sending_code ≡ false)
            × (p.ui.cooldown_seconds ≡ 0)
            × (nonempty email ≡ true)
            × (trim input ≡ email)))
      × (((after ≡ p) × (request ≡ none))
          ⊎ ((after.ui.is_sending_code ≡ true)
              × (after.ui.send_code_error ≡ none)
              × (after.ui.verify_code_error ≡ none)))
unfolding handle_send_code is_cooling_down start_send_code
handle_send_code-request_iff input p = (λ email. ground arith, ground arith)

-- The reply to a request for a code, whatever it is, ends the sending and leaves the error message
-- that is the reply's. A success starts the cooldown that it names, with a timer if it is above 0,
-- and shows how long the code lives; a failure leaves the cooldown, the timer and the code sent
-- before as they were. Neither touches what is remembered.
pub settle_send_code_lem :
    (r : Either FlowError ForgotPasswordPayload) (p : Page)
    → let after = settle_send_code r p in
      (after.ui.is_sending_code ≡ false)
      × (after.ui.send_code_error ≡ message_of r)
      × (after.ui.has_sent_code ≡ reply_or r (λ q. true) p.ui.has_sent_code)
      × (after.ui.cooldown_seconds
          ≡ reply_or r (λ q. q.resend_cooldown_seconds) p.ui.cooldown_seconds)
      × (after.cooldown_timer ≡ reply_or r (λ q. ltb 0 q.resend_cooldown_seconds) p.cooldown_timer)
      × (after.ui.verification_code_expires_minutes
          ≡ reply_or r
              (λ q. some q.verification_code_expires_minutes)
              p.ui.verification_code_expires_minutes)
      × (after.memory ≡ p.memory)
unfolding settle_send_code start_cooldown set_cooldown end_send_code_with_error
    end_send_code_with_success set_verification_code_expires_minutes
settle_send_code_lem (left x) p = ground arith
settle_send_code_lem (right q) p = ground arith

-- The page is where a code is verified: its first view is mounted, and nobody is signed in.
pub record IsVerifying (p : Page) : Type 0 where
  pub mounted : p.view ≡ verify_view
  pub signed_out : p.is_signed_in ≡ false

module _ (codec : Codec) (now : ℤ) (email : Text) where
  -- A code that is accepted, with a session that has not expired and an address that is not blank,
  -- while the first view is mounted and nobody is signed in: the session and the address are
  -- remembered, the view in which the password is set is mounted with its timeout running, the
  -- interval of the first view has stopped, the error of the verification is cleared, and the error
  -- that the view shows is the one left by an earlier attempt to set the password.
  pub settle_verify_code-accepted :
      (s : ResetPasswordSession) (p : Page)
      → IsVerifying p
      → is_active now s ≡ true
      → nonempty (trim email) ≡ true
      → let after = settle_verify_code codec now email (right s) p in
        (after.view ≡ reset_view)
        × (after.expiry_timer ≡ true)
        × (after.cooldown_timer ≡ false)
        × (after.memory.session ≡ some s)
        × (after.memory.email ≡ some (trim email))
        × (after.ui.is_verifying_code ≡ false)
        × (after.ui.verify_code_error ≡ none)
        × (after.ui.reset_password_error ≡ p.ui.reset_password_error)
  unfolding settle_verify_code navigate render wanted_view unmount mount get_reset_password_session
      save_reset_password_session save_reset_password_email normalize_reset_password_session
      normalize_reset_password_email clear_reset_password_success end_verify_code_with_success
  settle_verify_code-accepted s p at h k = ground (arith, h, k, at.mounted, at.signed_out)

  -- A code that is not accepted, or whose session has already expired, while the first view is
  -- mounted, nobody is signed in and no session is remembered: the first view stays, with its
  -- cooldown and its timer, no session is remembered, and the verifying has ended.
  pub settle_verify_code-refused :
      (r : Either FlowError ResetPasswordSession) (p : Page)
      → IsVerifying p
      → p.memory.session ≡ none
      → ((s : ResetPasswordSession) → r ≡ right s → is_active now s ≡ false)
      → let after = settle_verify_code codec now email r p in
        (after.view ≡ verify_view)
        × (after.memory.session ≡ none)
        × (after.cooldown_timer ≡ p.cooldown_timer)
        × (after.ui.cooldown_seconds ≡ p.ui.cooldown_seconds)
        × (after.ui.is_verifying_code ≡ false)
        × (after.ui.verify_code_error ≡ message_of r)
  unfolding settle_verify_code navigate render wanted_view unmount mount get_reset_password_session
      save_reset_password_session save_reset_password_email normalize_reset_password_session
      normalize_reset_password_email clear_reset_password_success end_verify_code_with_success
      end_verify_code_with_error
  settle_verify_code-refused (left x) p at h k = ground (arith, at.mounted, at.signed_out)
  settle_verify_code-refused (right s) p at h k =
      ground (arith, at.mounted, at.signed_out, k s refl)

-- The page is where the password is set: its second view is mounted for a session that is active.
pub record IsResetting (now : ℤ) (s : ResetPasswordSession) (p : Page) : Type 0 where
  pub mounted : p.view ≡ reset_view
  pub signed_out : p.is_signed_in ≡ false
  pub at_step : p.location ≡ forgot_password (some reset)
  pub remembered : p.memory.session ≡ some s
  pub active : is_active now s ≡ true

-- The view, the session and the storage after the reply to a new password.
abbrev pub view_after : Either FlowError Unknown → View
view_after (left x) =
    if text_eq (get_reset_password_error_message x) invalid_or_expired_reset_key
    then verify_view
    else reset_view
view_after (right u) = success_view

abbrev pub session_after : ResetPasswordSession → View → Option ResetPasswordSession
session_after s reset_view = some s
session_after s v = none

-- What the view leaves under the two keys of the storage.
abbrev pub storage_after : View → Storage → Storage
storage_after v closed = closed
storage_after success_view (holding e k) = holding none none
storage_after verify_view (holding e k) = holding e none
storage_after v (holding e k) = holding e k

abbrev pub timer_after : Bool → View → Bool
timer_after running reset_view = running
timer_after running v = false
