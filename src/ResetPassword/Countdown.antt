-- ===== src/ResetPassword/Countdown.antt =====
-- The cooldown of the page and the interval that counts it down.
use touhou_cloud_music_thcdb.Common.{
  ℕ, zero, suc, ◌-◌, ◌<◌, ◌≡◌, refl, ap, ◌∙◌, true, false, none, Text, ltb, ℤ, arith, text_eq, List,
  [], ◌∷◌,
}
use touhou_cloud_music_thcdb.Api.{Either, left, right}
use touhou_cloud_music_thcdb.ResetPassword.Session.{
  Codec, ResetPasswordSession, get_reset_password_session, clear_reset_password_session,
  save_reset_password_email, save_reset_password_session, clear_reset_password_success, is_active,
  normalize_reset_password_session,
}
use touhou_cloud_music_thcdb.ResetPassword.Response.{
  FlowError, ForgotPasswordPayload, get_reset_password_error_message, response_status,
}
use touhou_cloud_music_thcdb.ResetPassword.UiStore.{
  is_cooling_down, start_send_code, end_send_code_with_error, end_send_code_with_success,
  start_verify_code, end_verify_code_with_error, end_verify_code_with_success,
  end_reset_password_with_error, set_verification_code_expires_minutes, reset_ui_send_code_flow,
  set_cooldown, tick_cooldown,
}
use touhou_cloud_music_thcdb.ResetPassword.Page.{
  Page, start_cooldown, render, navigate, verify_view, wanted_view, unmount, mount, cooldown_second,
  reset_send_code_flow,
}
use touhou_cloud_music_thcdb.ResetPassword.Flows.{
  handle_send_code, settle_send_code, settle_verify_code, settle_reset_password, handle_verify_code,
  on_invalid_reset_key, invalid_or_expired_reset_key,
}
use touhou_cloud_music_thcdb.ResetPassword.Outcomes.{IsVerifying}

-- What can happen while the first view is mounted, a verified code apart.
pub data Event : Type 0 where
  asked : Text → Event
  code_sent : Either FlowError ForgotPasswordPayload → Event
  verifying : Text → Event
  code_refused : FlowError → Event
  changed : Event
  second_passed : Event

-- The interval runs exactly while the cooldown is above 0.
unfoldable pub IsTimed : Page → Type 0
IsTimed p = p.cooldown_timer ≡ ltb 0 p.ui.cooldown_seconds

module _ (codec : Codec) (now : ℤ) where
  unfoldable pub after : Event → Page → Page
  after (asked input) p = (handle_send_code input p).0
  after (code_sent r) p = settle_send_code r p
  after (verifying input) p = (handle_verify_code input p).0
  after (code_refused x) p = settle_verify_code codec now [] (left x) p
  after changed p = reset_send_code_flow p
  after second_passed p = cooldown_second p

  unfoldable pub after_all : List Event → Page → Page
  unfolding after
  after_all [] p = p
  after_all (ev ∷ evs) p = after_all evs (after ev p)

  after-IsTimed : (ev : Event) (p : Page) → IsTimed p → IsTimed (after ev p)
  unfolding IsTimed after handle_send_code settle_send_code handle_verify_code settle_verify_code
      reset_send_code_flow cooldown_second start_cooldown set_cooldown end_send_code_with_error
      end_send_code_with_success set_verification_code_expires_minutes start_send_code
      start_verify_code end_verify_code_with_error reset_ui_send_code_flow tick_cooldown
      is_cooling_down
  after-IsTimed (asked input) p h = ground (arith, h)
  after-IsTimed (code_sent r) p h = ground (arith, h)
  after-IsTimed (verifying input) p h = h
  after-IsTimed (code_refused x) p h = h
  after-IsTimed changed p h = refl
  after-IsTimed second_passed p h = ground (arith, h)

  -- As long as the first view is mounted, whatever happens in whatever order, the interval runs
  -- exactly while the cooldown is above 0, if that was so at first.
  pub after_all-IsTimed : (evs : List Event) (p : Page) → IsTimed p → IsTimed (after_all evs p)
  unfolding after_all
  after_all-IsTimed [] p h = h
  after_all-IsTimed (ev ∷ evs) p h = after_all-IsTimed evs (after ev p) (after-IsTimed ev p h)

-- n seconds pass.
unfoldable pub seconds : ℕ → Page → Page
unfolding cooldown_second
seconds zero p = p
seconds (suc n) p = seconds n (cooldown_second p)

second_lem :
    (p : Page)
    → IsTimed p
    → IsTimed (cooldown_second p)
      × ((cooldown_second p).ui.cooldown_seconds ≡ p.ui.cooldown_seconds - 1)
unfolding IsTimed cooldown_second tick_cooldown is_cooling_down
second_lem p h = (ground (arith, h), ground (arith, h))

-- With the interval running exactly while the cooldown is above 0, n seconds take n from the
-- cooldown, down to 0, and the interval still runs exactly while something is left of it.
pub seconds-cooldown :
    (n : ℕ) (p : Page)
    → IsTimed p
    → IsTimed (seconds n p) × ((seconds n p).ui.cooldown_seconds ≡ p.ui.cooldown_seconds - n)
unfolding seconds
seconds-cooldown zero p h = (h, omega arith)
seconds-cooldown (suc n) p h =
    let (timed, one) = second_lem p h in
    let (again, rest) = seconds-cooldown n (cooldown_second p) timed in
    (again, omega (arith, one, rest))

second-stopped : (p : Page) → p.cooldown_timer ≡ false → cooldown_second p ≡ p
unfolding cooldown_second
second-stopped p h = ground (arith, h)

seconds-stopped : (n : ℕ) (p : Page) → p.cooldown_timer ≡ false → seconds n p ≡ p
unfolding seconds
seconds-stopped zero p h = refl
seconds-stopped (suc n) p h = ap (seconds n) (second-stopped p h) ∙ seconds-stopped n p h

send_code-cooling :
    (input : Text) (p : Page) → 0 < p.ui.cooldown_seconds → handle_send_code input p ≡ (p, none)
unfolding handle_send_code is_cooling_down
send_code-cooling input p h = ground arith

refused_lem :
    (codec : Codec) (now replied : ℤ) (email : Text) (s : ResetPasswordSession) (p : Page)
    → IsVerifying p
    → is_active now s ≡ true
    → let verified = settle_verify_code codec now email (right s) p in
      let refused =
        settle_reset_password replied
          (left (response_status invalid_or_expired_reset_key))
          verified in
      (refused.view ≡ verify_view)
      × (refused.cooldown_timer ≡ false)
      × (refused.ui.cooldown_seconds ≡ p.ui.cooldown_seconds)
unfolding settle_verify_code settle_reset_password on_invalid_reset_key navigate render wanted_view
    unmount mount get_reset_password_session save_reset_password_session save_reset_password_email
    normalize_reset_password_session clear_reset_password_success clear_reset_password_session
    end_verify_code_with_success end_reset_password_with_error get_reset_password_error_message
    text_eq
refused_lem codec now replied email s p at k = ground (arith, at.mounted, at.signed_out, k)

-- A code is verified while the cooldown still runs, and then the key is refused as invalid: the
-- first view is back, its cooldown is the same after any number of seconds, and no code can be
-- asked for.
pub frozen_cooldown :
    (codec : Codec) (now replied : ℤ) (email input : Text) (s : ResetPasswordSession) (n : ℕ)
    (p : Page)
    → IsVerifying p
    → 0 < p.ui.cooldown_seconds
    → is_active now s ≡ true
    → let verified = settle_verify_code codec now email (right s) p in
      let refused =
        settle_reset_password replied
          (left (response_status invalid_or_expired_reset_key))
          verified in
      let later = seconds n refused in
      (later.view ≡ verify_view)
      × (later.ui.cooldown_seconds ≡ p.ui.cooldown_seconds)
      × (handle_send_code input later ≡ (later, none))
frozen_cooldown codec now replied email input s n p at h k =
    let verified = settle_verify_code codec now email (right s) p in
    let refused =
      settle_reset_password replied (left (response_status invalid_or_expired_reset_key))
        verified in
    let (view, stopped, same) = refused_lem codec now replied email s p at k in
    rw (seconds-stopped n refused stopped)
      (view, same, send_code-cooling input refused (omega (arith, same, h)))
