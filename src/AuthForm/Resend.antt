-- ===== src/AuthForm/Resend.antt =====
-- When a new code is asked for, and what the reply does.
use touhou_cloud_music_thcdb.Common.{
  ℕ, ◌≡◌, ◌↔◌, ◌⊎◌, true, Option, none, some, Text, nonempty, arith,
}
use touhou_cloud_music_thcdb.Api.{Either, left, right, ApiError}
use touhou_cloud_music_thcdb.VerifyEmail.{VerifyEmailState, ready, resending, cooldown}
use touhou_cloud_music_thcdb.AuthForm.Interface.{Users}
use touhou_cloud_music_thcdb.AuthForm.{
  Form, resend, begin_resend, settle_resend, verification_email_sent,
}

abbrev pub reply_state : Text → Either ApiError ℕ → VerifyEmailState
reply_state e (left _) = ready e
reply_state e (right n) = cooldown e n

abbrev pub reply_error : Either ApiError ℕ → Option Text
reply_error (left x) = some x.error
reply_error (right _) = none

abbrev pub reply_info : Either ApiError ℕ → Option Text
reply_info (left _) = none
reply_info (right _) = some verification_email_sent

module _ {users : Users} where
  -- A request for a new code goes out exactly in the state `ready`, and in the state `cooldown` at
  -- 0 seconds, when the address is not empty; it is for the address of that state.
  pub begin_resend-request_iff :
      (f : Form users) (e : Text)
      → ((begin_resend f).1 ≡ some (resend e)) ↔ (
          (nonempty e ≡ true)
          × ((f.verify_email_state ≡ ready e) ⊎ (f.verify_email_state ≡ cooldown e 0)))
  unfolding begin_resend
  begin_resend-request_iff f e = ground arith

  -- The state when a request for a new code goes out, and after its reply, with nothing in between:
  -- from `ready`, no message is left and the state is `resending`; an error is shown and the state
  -- is `ready` again; a success starts the cooldown that the reply names.
  pub resend_cycle :
      (f : Form users) (e : Text) (r : Either ApiError ℕ)
      → f.verify_email_state ≡ ready e
      → nonempty e ≡ true
      → let sent = (begin_resend f).0 in
        let done = settle_resend r sent in
        (sent.verify_email_state ≡ resending e)
        × (sent.submit_error ≡ none)
        × (sent.submit_info ≡ none)
        × (done.verify_email_state ≡ reply_state e r)
        × (done.submit_error ≡ reply_error r)
        × (done.submit_info ≡ reply_info r)
  unfolding begin_resend settle_resend
  resend_cycle f e (left x) h k = ground arith
  resend_cycle f e (right n) h k = ground arith

  -- In a cooldown of 0 seconds a request goes out, and its success does not start the cooldown that
  -- the reply names: the state is the same before and after.
  pub begin_resend-cooldown_zero :
      (f : Form users) (e : Text) (n : ℕ)
      → f.verify_email_state ≡ cooldown e 0
      → nonempty e ≡ true
      → ((begin_resend f).1 ≡ some (resend e))
        × ((settle_resend (right n) (begin_resend f).0).verify_email_state ≡ cooldown e 0)
  unfolding begin_resend settle_resend
  begin_resend-cooldown_zero f e n h k = ground arith
