-- ===== src/VerifyEmail.antt =====
-- The e-mail verification step of the sign-up flow: web/frontend/src/view/auth/verify_email,
-- session.ts (the remembered address) and state.ts (the state machine).
pub mod Laws
pub mod Cooldown
mod Examples
use touhou_cloud_music_thcdb.Common.{
  ℕ, ◌-◌, Bool, true, false, Option, none, some, Text, text_eq, nonempty, trim, leb, if◌then◌else◌,
}

-- The signal `verificationEmail` of session.ts is the state; these are its writes.
unfoldable pub normalize_verification_email : Text → Option Text
normalize_verification_email email =
    let normalized = trim email in if nonempty normalized then some normalized else none

unfoldable pub save_verification_email : Text → Option Text
unfolding normalize_verification_email
save_verification_email email = normalize_verification_email email

unfoldable pub clear_verification_email : Option Text
clear_verification_email = none

pub data Mode : Type 0 where
  sign_in sign_up verify_email : Mode

pub data VerifyEmailState : Type 0 where
  inactive missing_session : VerifyEmailState
  ready resending : Text → VerifyEmailState
  cooldown : Text → ℕ → VerifyEmailState

pub data VerifyEmailEvent : Type 0 where
  sync : Mode → VerifyEmailEvent
  seed_after_signup : Text → ℕ → VerifyEmailEvent
  start_resend resend_failed : VerifyEmailEvent
  resend_success : ℕ → VerifyEmailEvent
  tick : VerifyEmailEvent

-- `state.email`
abbrev pub email_of : VerifyEmailState → Option Text
email_of inactive = none
email_of missing_session = none
email_of (ready e) = some e
email_of (resending e) = some e
email_of (cooldown e s) = some e

-- the event "sync" outside the mode "verify_email"
abbrev leave : VerifyEmailState → VerifyEmailState
leave inactive = inactive
leave missing_session = inactive
leave s = s

-- `!email`, on a value that may be undefined
abbrev pub truthy : Option Text → Option Text
truthy none = none
truthy (some e) = if nonempty e then some e else none

-- `(ready, resending or cooldown) && state.email === email`
abbrev is_about : VerifyEmailState → Text → Bool
is_about inactive e = false
is_about missing_session e = false
is_about (ready d) e = text_eq d e
is_about (resending d) e = text_eq d e
is_about (cooldown d s) e = text_eq d e

abbrev enter : VerifyEmailState → Option Text → VerifyEmailState
enter s none = missing_session
enter s (some e) = if is_about s e then s else ready e

-- `updateVerifyEmailState`; the first argument is what `getVerificationEmail()` returns.
unfoldable pub update_verify_email_state :
    Option Text → VerifyEmailState → VerifyEmailEvent → VerifyEmailState
update_verify_email_state stored s (sync verify_email) = enter s (truthy stored)
update_verify_email_state stored s (sync sign_in) = leave s
update_verify_email_state stored s (sync sign_up) = leave s
update_verify_email_state stored s (seed_after_signup e n) = cooldown e n
update_verify_email_state stored (ready e) start_resend = resending e
update_verify_email_state stored s start_resend = s
update_verify_email_state stored (resending e) resend_failed = ready e
update_verify_email_state stored s resend_failed = s
update_verify_email_state stored (resending e) (resend_success n) = cooldown e n
update_verify_email_state stored s (resend_success n) = s
update_verify_email_state stored (cooldown e n) tick =
    if leb n 1 then ready e else cooldown e (n - 1)
update_verify_email_state stored s tick = s
