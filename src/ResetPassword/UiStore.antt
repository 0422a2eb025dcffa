-- ===== src/ResetPassword/UiStore.antt =====
-- The state that the page shows: web/frontend/src/view/auth/reset_password/store.ts.
use touhou_cloud_music_thcdb.Common.{
  ℕ, ◌-◌, Bool, true, false, Option, none, some, Text, leb, ltb, if◌then◌else◌,
}

pub record UiState : Type 0 where
  pub send_code_error : Option Text
  pub verify_code_error : Option Text
  pub reset_password_error : Option Text
  pub cooldown_seconds : ℕ
  pub is_sending_code : Bool
  pub is_verifying_code : Bool
  pub has_sent_code : Bool
  pub verification_code_expires_minutes : Option ℕ

unfoldable pub new_ui : UiState
new_ui = record {
  send_code_error = none;
  verify_code_error = none;
  reset_password_error = none;
  cooldown_seconds = 0;
  is_sending_code = false;
  is_verifying_code = false;
  has_sent_code = false;
  verification_code_expires_minutes = none;
}

unfoldable pub is_cooling_down : UiState → Bool
is_cooling_down ui = ltb 0 ui.cooldown_seconds

unfoldable pub start_send_code : UiState → UiState
start_send_code ui = record ui {
  send_code_error = none;
  verify_code_error = none;
  is_sending_code = true;
}

unfoldable pub end_send_code_with_error : Text → UiState → UiState
end_send_code_with_error message ui = record ui {
  is_sending_code = false;
  send_code_error = some message;
}

unfoldable pub end_send_code_with_success : UiState → UiState
end_send_code_with_success ui = record ui {
  is_sending_code = false;
  has_sent_code = true;
  send_code_error = none;
}

unfoldable pub start_verify_code : UiState → UiState
start_verify_code ui = record ui { verify_code_error = none; is_verifying_code = true }

unfoldable pub end_verify_code_with_error : Text → UiState → UiState
end_verify_code_with_error message ui = record ui {
  is_verifying_code = false;
  verify_code_error = some message;
}

unfoldable pub end_verify_code_with_success : UiState → UiState
end_verify_code_with_success ui = record ui { is_verifying_code = false; verify_code_error = none }

unfoldable pub start_reset_password : UiState → UiState
start_reset_password ui = record ui { reset_password_error = none }

unfoldable pub end_reset_password_with_error : Text → UiState → UiState
end_reset_password_with_error message ui = record ui { reset_password_error = some message }

unfoldable pub set_verification_code_expires_minutes : ℕ → UiState → UiState
set_verification_code_expires_minutes minutes ui = record ui {
  verification_code_expires_minutes = some minutes;
}

unfoldable pub reset_ui_send_code_flow : UiState → UiState
reset_ui_send_code_flow ui = record ui {
  send_code_error = none;
  verify_code_error = none;
  cooldown_seconds = 0;
  is_sending_code = false;
  is_verifying_code = false;
  has_sent_code = false;
  verification_code_expires_minutes = none;
}

unfoldable pub set_cooldown : ℕ → UiState → UiState
set_cooldown seconds ui = record ui { cooldown_seconds = seconds }

unfoldable pub tick_cooldown : UiState → UiState
tick_cooldown ui = record ui {
  cooldown_seconds = if leb ui.cooldown_seconds 1 then 0 else ui.cooldown_seconds - 1;
}
