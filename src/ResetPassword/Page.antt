-- ===== src/ResetPassword/Page.antt =====
-- What the page has mounted, with its timers: `ResetPasswordPage` and its three views in
-- web/frontend/src/view/auth/reset_password/index.tsx.
use touhou_cloud_music_thcdb.Common.{
  ℕ, Bool, true, false, ◌||◌, Option, none, some, ℤ, ltb_ℤ, ltb, if◌then◌else◌,
}
use touhou_cloud_music_thcdb.ResetPassword.Session.{
  Memory, get_reset_password_session, clear_reset_password_session, clear_reset_password_success,
  clear_reset_password_email,
}
use touhou_cloud_music_thcdb.ResetPassword.UiStore.{
  UiState, is_cooling_down, reset_ui_send_code_flow, set_cooldown, tick_cooldown,
}

pub data ResetPasswordStep : Type 0 where
  reset success : ResetPasswordStep

pub data Location : Type 0 where
  forgot_password : Option ResetPasswordStep → Location
  sign_in_page : Location

-- What the page has mounted: one of its three views, the redirection to the home page, or nothing
-- once it is left.
pub data View : Type 0 where
  verify_view reset_view success_view home_view gone : View

-- `cooldown_timer` and `expiry_timer`: the interval of the first view and the timeout of the second
-- are running.
pub record Page : Type 0 where
  pub ui : UiState
  pub memory : Memory
  pub cooldown_timer : Bool
  pub expiry_timer : Bool
  pub location : Location
  pub view : View
  pub is_signed_in : Bool

unfoldable pub start_cooldown : ℕ → Page → Page
unfolding set_cooldown
start_cooldown seconds p = record p {
  ui = set_cooldown seconds p.ui;
  cooldown_timer = ltb 0 seconds;
}

-- The interval's callback, if the interval is running.
unfoldable pub cooldown_second : Page → Page
unfolding tick_cooldown is_cooling_down
cooldown_second p =
    let ticked = tick_cooldown p.ui in
    if p.cooldown_timer
    then record p { ui = ticked; cooldown_timer = is_cooling_down ticked }
    else p

unfoldable pub reset_send_code_flow : Page → Page
unfolding reset_ui_send_code_flow
reset_send_code_flow p = record p { ui = reset_ui_send_code_flow p.ui; cooldown_timer = false }

unfoldable pub is_verify_step : Page → Bool
is_verify_step p = p.ui.is_sending_code || p.ui.has_sent_code

-- The navigation to the page of the sign-in, which unmounts this one.
unfoldable pub redirect_to_sign_in : Page → Page
unfolding clear_reset_password_session clear_reset_password_email clear_reset_password_success
redirect_to_sign_in p = record p {
  memory =
      clear_reset_password_success
        (clear_reset_password_email (clear_reset_password_session p.memory));
  cooldown_timer = false;
  expiry_timer = false;
  location = sign_in_page;
  view = gone;
}

-- The view of `ResetPasswordPage`. To ask for the session may forget it.
unfoldable pub wanted_view : ℤ → Page → Memory × View
unfolding get_reset_password_session
wanted_view now p =
    let (m, session) = get_reset_password_session now p.memory in
    if p.is_signed_in then (p.memory, home_view) else elim p.location [
      | sign_in_page ↦ (p.memory, gone)
      | forgot_password step ↦ elim step [
        | none ↦ (p.memory, verify_view)
        | some reset ↦ (m, elim session [ none ↦ verify_view | some _ ↦ reset_view ])
        | some success ↦ (p.memory, if p.memory.success then success_view else verify_view)
      ]
    ]

abbrev same_view : View → View → Bool
same_view verify_view verify_view = true
same_view reset_view reset_view = true
same_view success_view success_view = true
same_view home_view home_view = true
same_view gone gone = true
same_view v w = false

-- `onCleanup` of the view that is replaced
unfoldable pub unmount : Page → Page
unmount p = elim p.view [
  | verify_view ↦ record p { cooldown_timer = false }
  | reset_view ↦ record p { expiry_timer = false }
  | v ↦ p
]

-- `onMount` of the view that replaces it
unfoldable pub mount : ℤ → View → Page → Page
unfolding clear_reset_password_session clear_reset_password_success redirect_to_sign_in
mount now verify_view p = record p {
  view = verify_view;
  memory = clear_reset_password_success (clear_reset_password_session p.memory);
}
mount now reset_view p = elim p.memory.session [
  | none ↦ redirect_to_sign_in p
  | some s ↦
      if ltb_ℤ now s.expires_at_ms
      then record p { view = reset_view; expiry_timer = true }
      else redirect_to_sign_in p
]
mount now success_view p = record p {
  view = success_view;
  memory = clear_reset_password_session p.memory;
}
mount now v p = record p { view = v }

unfoldable pub render : ℤ → Page → Page
unfolding wanted_view unmount mount
render now p =
    let (m, v) = wanted_view now p in
    let asked = record p { memory = m } in
    if same_view v p.view then asked else mount now v (unmount asked)

unfoldable pub navigate : ℤ → ResetPasswordStep → Page → Page
unfolding render
navigate now step p = render now (record p { location = forgot_password (some step) })
