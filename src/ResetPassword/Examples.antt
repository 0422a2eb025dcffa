-- ===== src/ResetPassword/Examples.antt =====
-- Resets of a password.
use touhou_cloud_music_thcdb.Common.{
  ℕ, ◌≡◌, refl, true, false, none, some, Text, [], ◌∷◌, trim, codes, ℤ, pos, negsuc, arith,
}
use touhou_cloud_music_thcdb.Api.{Either, left, right}
use touhou_cloud_music_thcdb.ResetPassword.Session.{
  Memory, Codec, ResetPasswordSession, holding, Stored, fits, throws,
}
use touhou_cloud_music_thcdb.ResetPassword.Response.{
  FlowError, ForgotPasswordPayload, Unknown, response_status,
}
use touhou_cloud_music_thcdb.ResetPassword.UiStore.{new_ui}
use touhou_cloud_music_thcdb.ResetPassword.Page.{Page, verify_view, reset_view, forgot_password}
use touhou_cloud_music_thcdb.ResetPassword.Flows.{
  handle_send_code, settle_send_code, settle_verify_code, settle_reset_password,
  invalid_or_expired_reset_key,
}
use touhou_cloud_music_thcdb.ResetPassword.Outcomes.{IsVerifying, settle_verify_code-accepted}
use touhou_cloud_music_thcdb.ResetPassword.Countdown.{IsTimed, seconds, frozen_cooldown}

abbrev words : ℕ → ℤ → Text
words m (pos n) = m ∷ n ∷ []
words m (negsuc n) = m ∷ n ∷ n ∷ []

abbrev print : ResetPasswordSession → Text
print s = words s.key_expires_minutes s.expires_at_ms

abbrev read : Text → Stored
read (m ∷ n ∷ []) = fits (record { key_expires_minutes = m; expires_at_ms = pos n })
read (m ∷ n ∷ k ∷ []) = fits (record { key_expires_minutes = m; expires_at_ms = negsuc n })
read t = throws

read-print : (s : ResetPasswordSession) → read (print s) ≡ fits s
read-print s =
    elim s.expires_at_ms
      as (λ z. read (words s.key_expires_minutes z) ≡ fits (record s { expires_at_ms = z })) [
        | pos n ↦ refl
        | negsuc n ↦ refl
      ]

abbrev codec : Codec
codec = record { stringify = print; parse = read; parse-stringify = read-print }

abbrev session : ResetPasswordSession
session = record { key_expires_minutes = 10; expires_at_ms = pos 600 }

abbrev address : Text
address = codes "a@b.jp"

abbrev memory : Memory
memory = record { storage = holding none none; email = none; session = none; success = false }

abbrev page : Page
page = record {
  ui = new_ui;
  memory = memory;
  cooldown_timer = false;
  expiry_timer = false;
  location = forgot_password none;
  view = verify_view;
  is_signed_in = false;
}

abbrev payload : ForgotPasswordPayload
payload = record { verification_code_expires_minutes = 5; resend_cooldown_seconds = 60 }

abbrev cooling : Page
cooling = settle_send_code (right payload) page

abbrev resetting : Page
resetting = settle_verify_code codec (pos 0) address (right session) cooling

cooling-IsVerifying : IsVerifying cooling
unfolding settle_send_code
cooling-IsVerifying = record { mounted = refl; signed_out = refl }

page-IsVerifying : IsVerifying page
page-IsVerifying = record { mounted = refl; signed_out = refl }

page-IsTimed : IsTimed page
unfolding IsTimed new_ui
page-IsTimed = refl

cooling-IsTimed : IsTimed cooling
unfolding IsTimed settle_send_code
cooling-IsTimed = refl

abbrev remembering : Memory
remembering = record memory { session = some session }

abbrev replied : Either FlowError ForgotPasswordPayload
replied = right payload

settle_verify_code-accepted_example :
    (resetting.view ≡ reset_view)
    × (resetting.expiry_timer ≡ true)
    × (resetting.cooldown_timer ≡ false)
    × (resetting.memory.session ≡ some session)
    × (resetting.memory.email ≡ some (trim address))
    × (resetting.ui.is_verifying_code ≡ false)
    × (resetting.ui.verify_code_error ≡ none)
    × (resetting.ui.reset_password_error ≡ cooling.ui.reset_password_error)
settle_verify_code-accepted_example =
    settle_verify_code-accepted codec (pos 0) address session cooling cooling-IsVerifying refl
      (unfold trim in refl)

abbrev wrong_code : Either FlowError ResetPasswordSession
wrong_code = left (response_status (codes "Invalid code"))

abbrev invalid : Either FlowError Unknown
invalid = left (response_status invalid_or_expired_reset_key)

frozen_cooldown_example :
    let refused =
      settle_reset_password
        (pos 120)
        (left (response_status invalid_or_expired_reset_key))
        resetting in
    let later = seconds 100 refused in
    (later.view ≡ verify_view)
    × (later.ui.cooldown_seconds ≡ cooling.ui.cooldown_seconds)
    × (handle_send_code address later ≡ (later, none))
unfolding settle_send_code
frozen_cooldown_example =
    frozen_cooldown codec (pos 0) (pos 120) address address session 100 cooling cooling-IsVerifying
      (omega arith) refl
