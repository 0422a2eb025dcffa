-- ===== src/ResetPassword/Response.antt =====
-- Reading the replies: web/frontend/src/view/auth/reset_password/response.ts and request.ts.
-- An unknown value is a JSON value or `undefined`.
use touhou_cloud_music_thcdb.Common.{
  ℕ, Bool, Option, none, some, Text, nonempty, trim, codes, ℤ, ◌==◌, if◌then◌else◌,
}
use touhou_cloud_music_thcdb.Api.{Either, left, right}
use touhou_cloud_music_thcdb.Api.Values.{Json, str}
use touhou_cloud_music_thcdb.ResetPassword.Session.{ResetPasswordSession}

abbrev pub Unknown : Type 0
Unknown = Option Json

abbrev pub request_failed_message : Text
request_failed_message = codes "Request failed"

pub record AuthApiResponse : Type 0 where
  pub status : ℕ
  pub content : Unknown

pub data FlowError : Type 0 where
  invalid_response request_failed : FlowError
  response_status : Text → FlowError

pub record ForgotPasswordPayload : Type 0 where
  pub verification_code_expires_minutes : ℕ
  pub resend_cooldown_seconds : ℕ

pub record SessionPayload : Type 0 where
  pub key_expires_minutes : ℕ
  pub key_expires_at : Text

-- The decoders that the `effect` library makes of the four schemas, `none` where they fail, and
-- `Date.parse`, `none` where its result is not finite.
pub record Schemas : Type 0 where
  pub api_error_body : Unknown → Option Text
  pub api_success_envelope : Unknown → Option Unknown
  pub forgot_password_payload : Unknown → Option ForgotPasswordPayload
  pub session_payload : Unknown → Option SessionPayload
  pub parse_date : Text → Option ℤ

infixl 5 ◌>>=◌
abbrev pub ◌>>=◌ {ℓ κ} :
    {A : Type ℓ} {B : Type κ} → Either FlowError A → (A → Either FlowError B) → Either FlowError B
left e >>= f = left e
right a >>= f = f a

-- `Effect.try` around a decoder
abbrev pub decoded {ℓ} : {A : Type ℓ} → Option A → Either FlowError A
decoded none = left invalid_response
decoded (some a) = right a

abbrev shown : Text → Text
shown message = if nonempty (trim message) then trim message else request_failed_message

unfoldable pub get_reset_password_error_message : FlowError → Text
get_reset_password_error_message (response_status message) = message
get_reset_password_error_message e = request_failed_message

-- The result of the generated client, whose promise may be rejected (`none`).
pub record JsonRequestResult : Type 0 where
  pub value : Unknown
  pub error : Unknown
  pub response : Option (ℕ × Bool)

-- `postJson`: the response is its status and its `ok`.
unfoldable pub post_json : Option JsonRequestResult → Either FlowError AuthApiResponse
post_json none = left request_failed
post_json (some result) = elim result.response [
  | none ↦ left request_failed
  | some (status, ok) ↦
      right (record { status = status; content = if ok then result.value else result.error })
]

module _ (schemas : Schemas) where
  open schemas use {
    api_error_body, api_success_envelope, forgot_password_payload, session_payload, parse_date,
  }

  unfoldable pub get_api_error_message : Unknown → Text
  get_api_error_message (some (str message)) = shown message
  get_api_error_message input = elim (api_error_body input) [
    | none ↦ request_failed_message
    | some message ↦ shown message
  ]

  unfoldable pub ensure_success_response : AuthApiResponse → Either FlowError Unknown
  unfolding get_api_error_message
  ensure_success_response response =
      if response.status == 200
      then right response.content
      else left (response_status (get_api_error_message response.content))

  unfoldable pub decode_forgot_password_payload : Unknown → Either FlowError ForgotPasswordPayload
  decode_forgot_password_payload input = do
    envelope ← decoded (api_success_envelope input)
    decoded (forgot_password_payload envelope)

  abbrev session_of : SessionPayload → Option ℤ → Either FlowError ResetPasswordSession
  session_of payload none = left invalid_response
  session_of payload (some expires_at_ms) =
      right (record {
        key_expires_minutes = payload.key_expires_minutes;
        expires_at_ms = expires_at_ms;
      })

  unfoldable pub decode_reset_password_session : Unknown → Either FlowError ResetPasswordSession
  decode_reset_password_session input = do
    envelope ← decoded (api_success_envelope input)
    payload ← decoded (session_payload envelope)
    session_of payload (parse_date payload.key_expires_at)
