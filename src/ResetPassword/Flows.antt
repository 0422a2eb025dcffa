-- ===== src/ResetPassword/Flows.antt =====
-- The flows of the page: the handlers of web/frontend/src/view/auth/reset_password/index.tsx and
-- send_reset_code.ts, verify_reset_code.ts and reset_password_by_key.ts. A flow is in two parts: what
-- it does up to its request, and what it does with the reply.
use touhou_cloud_music_thcdb.Common.{
  ◌||◌, Option, none, some, Text, text_eq, nonempty, trim, codes, ℤ, if◌then◌else◌,
}
use touhou_cloud_music_thcdb.Api.{Either, left, right}
use touhou_cloud_music_thcdb.ResetPassword.Session.{
  ResetPasswordSession, Codec, clear_reset_password_session, clear_reset_password_success,
  save_reset_password_email, save_reset_password_session, mark_reset_password_success,
}
use touhou_cloud_music_thcdb.ResetPassword.Response.{
  Schemas, Unknown, FlowError, ForgotPasswordPayload, JsonRequestResult, post_json,
  ensure_success_response, decode_forgot_password_payload, decode_reset_password_session,
  get_reset_password_error_message, ◌>>=◌,
}
use touhou_cloud_music_thcdb.ResetPassword.UiStore.{
  is_cooling_down, start_send_code, end_send_code_with_error, end_send_code_with_success,
  start_verify_code, end_verify_code_with_error, end_verify_code_with_success, start_reset_password,
  end_reset_password_with_error, set_verification_code_expires_minutes,
}
use touhou_cloud_music_thcdb.ResetPassword.Page.{
  Page, reset, success, start_cooldown, render, navigate,
}

-- `handleSendCode` up to the request, with the address that the request is for.
unfoldable pub handle_send_code : Text → Page → Page × Option Text
unfolding is_cooling_down start_send_code save_reset_password_email
handle_send_code input p =
    let email = trim input in
    if p.ui.is_sending_code || is_cooling_down p.ui
    then (p, none)
    else if nonempty email
    then (
      record p { memory = save_reset_password_email email p.memory; ui = start_send_code p.ui },
      some email,
    )
    else (p, none)

-- `handleVerifyCode` up to the request, with the address that the request is for.
unfoldable pub handle_verify_code : Text → Page → Page × Text
unfolding start_verify_code
handle_verify_code input p = (record p { ui = start_verify_code p.ui }, trim input)

-- `resetPasswordByKey` up to the request
unfoldable pub begin_reset_password : Page → Page
unfolding start_reset_password
begin_reset_password p = record p { ui = start_reset_password p.ui }

abbrev pub invalid_or_expired_reset_key : Text
invalid_or_expired_reset_key = codes "Invalid or expired reset key"

module _ (schemas : Schemas) where
  unfoldable pub send_code_outcome :
      Option JsonRequestResult → Either FlowError ForgotPasswordPayload
  unfolding post_json ensure_success_response decode_forgot_password_payload
  send_code_outcome reply = do
    response ← post_json reply
    body ← ensure_success_response schemas response
    decode_forgot_password_payload schemas body

  unfoldable pub verify_code_outcome :
      Option JsonRequestResult → Either FlowError ResetPasswordSession
  unfolding post_json ensure_success_response decode_reset_password_session
  verify_code_outcome reply = do
    response ← post_json reply
    body ← ensure_success_response schemas response
    decode_reset_password_session schemas body

  unfoldable pub reset_password_outcome : Option JsonRequestResult → Either FlowError Unknown
  unfolding post_json ensure_success_response
  reset_password_outcome reply = do
    response ← post_json reply
    ensure_success_response schemas response

unfoldable pub settle_send_code : Either FlowError ForgotPasswordPayload → Page → Page
unfolding start_cooldown end_send_code_with_error end_send_code_with_success
    get_reset_password_error_message set_verification_code_expires_minutes
settle_send_code (left error) p = record p {
  ui = end_send_code_with_error (get_reset_password_error_message error) p.ui;
}
settle_send_code (right payload) p =
    let started = start_cooldown payload.resend_cooldown_seconds p in
    record started {
      ui = end_send_code_with_success (
          set_verification_code_expires_minutes payload.verification_code_expires_minutes
            started.ui);
    }

-- The address is the one of the request.
unfoldable pub settle_verify_code :
    Codec → ℤ → Text → Either FlowError ResetPasswordSession → Page → Page
unfolding end_verify_code_with_error end_verify_code_with_success get_reset_password_error_message
    save_reset_password_email save_reset_password_session navigate
settle_verify_code codec now email (left error) p = record p {
  ui = end_verify_code_with_error (get_reset_password_error_message error) p.ui;
}
settle_verify_code codec now email (right session) p =
    let remembered = save_reset_password_email email p.memory in
    let saved = save_reset_password_session codec now session remembered in
    let arrived = navigate now reset (record p { memory = saved }) in
    record arrived { ui = end_verify_code_with_success arrived.ui }

-- `onInvalidResetKey` of the page clears two signals; the page shows the view that this asks for.
unfoldable pub on_invalid_reset_key : ℤ → Page → Page
unfolding clear_reset_password_session clear_reset_password_success render
on_invalid_reset_key now p =
    render now
      (record p { memory = clear_reset_password_success (clear_reset_password_session p.memory) })

unfoldable pub settle_reset_password : ℤ → Either FlowError Unknown → Page → Page
unfolding get_reset_password_error_message on_invalid_reset_key end_reset_password_with_error
    mark_reset_password_success navigate text_eq
settle_reset_password now (left error) p =
    let message = get_reset_password_error_message error in
    let left_page =
      if text_eq message invalid_or_expired_reset_key then on_invalid_reset_key now p else p in
    record left_page { ui = end_reset_password_with_error message left_page.ui }
settle_reset_password now (right _) p =
    navigate now success (record p { memory = mark_reset_password_success p.memory })
