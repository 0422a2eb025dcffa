-- ===== src/ResetPassword/Session.antt =====
-- What is remembered of a reset in session storage and in signals:
-- web/frontend/src/view/auth/reset_password/session.ts.
use touhou_cloud_music_thcdb.Common.{
  ℕ, ◌≡◌, Bool, true, false, Option, none, some, Text, nonempty, trim, ℤ, ltb_ℤ, if◌then◌else◌,
}

pub record ResetPasswordSession : Type 0 where
  pub key_expires_minutes : ℕ
  pub expires_at_ms : ℤ

-- RESET_PASSWORD_EMAIL_KEY and RESET_PASSWORD_SESSION_KEY
pub data StorageKey : Type 0 where
  email_key session_key : StorageKey

-- `sessionStorage` under the two keys; in some browsers every access throws.
pub data Storage : Type 0 where
  closed : Storage
  holding : (email_item session_item : Option Text) → Storage

unfoldable pub load_stored_string : StorageKey → Storage → Option Text
load_stored_string key closed = none
load_stored_string email_key (holding e s) = e
load_stored_string session_key (holding e s) = s

unfoldable pub save_stored_string : StorageKey → Option Text → Storage → Storage
save_stored_string key value closed = closed
save_stored_string email_key value (holding e s) = holding value s
save_stored_string session_key value (holding e s) = holding e value

unfoldable pub normalize_reset_password_email : Text → Option Text
normalize_reset_password_email email =
    let normalized = trim email in if nonempty normalized then some normalized else none

-- `session.expiresAtMs > Date.now()`
abbrev pub is_active : ℤ → ResetPasswordSession → Bool
is_active now session = ltb_ℤ now session.expires_at_ms

unfoldable pub normalize_reset_password_session :
    ℤ → ResetPasswordSession → Option ResetPasswordSession
normalize_reset_password_session now session = if is_active now session then some session else none

-- The storage and the three signals of the module.
pub record Memory : Type 0 where
  pub storage : Storage
  pub email : Option Text
  pub session : Option ResetPasswordSession
  pub success : Bool

-- What `JSON.parse` and the schema make of a stored text.
pub data Stored : Type 0 where
  throws : Stored
  misfit : Stored
  fits : ResetPasswordSession → Stored

-- `JSON.stringify`, and `JSON.parse` followed by the test of `ResetPasswordSessionSchema`.
pub record Codec : Type 0 where
  pub stringify : ResetPasswordSession → Text
  pub parse : Text → Stored
  pub parse-stringify : (s : ResetPasswordSession) → parse (stringify s) ≡ fits s

unfoldable pub clear_reset_password_email : Memory → Memory
unfolding save_stored_string
clear_reset_password_email m = record m {
  storage = save_stored_string email_key none m.storage;
  email = none;
}

unfoldable pub save_reset_password_email : Text → Memory → Memory
unfolding save_stored_string normalize_reset_password_email
save_reset_password_email email m =
    let normalized = normalize_reset_password_email email in
    record m { storage = save_stored_string email_key normalized m.storage; email = normalized }

unfoldable pub clear_reset_password_session : Memory → Memory
unfolding save_stored_string
clear_reset_password_session m = record m {
  storage = save_stored_string session_key none m.storage;
  session = none;
}

unfoldable pub clear_reset_password_success : Memory → Memory
clear_reset_password_success m = record m { success = false }

unfoldable pub mark_reset_password_success : Memory → Memory
unfolding clear_reset_password_email clear_reset_password_session
mark_reset_password_success m =
    record (clear_reset_password_email (clear_reset_password_session m)) { success = true }

-- A session that is found to have expired is forgotten.
unfoldable pub get_reset_password_session : ℤ → Memory → Memory × Option ResetPasswordSession
unfolding clear_reset_password_session
get_reset_password_session now m = elim m.session [
  | none ↦ (m, none)
  | some s ↦ if is_active now s then (m, some s) else (clear_reset_password_session m, none)
]

module _ (codec : Codec) where
  open codec use {stringify, parse}

  abbrev encode : Option ResetPasswordSession → Option Text
  encode none = none
  encode (some s) = some (stringify s)

  unfoldable pub save_reset_password_session : ℤ → ResetPasswordSession → Memory → Memory
  unfolding save_stored_string normalize_reset_password_session clear_reset_password_success
  save_reset_password_session now session m =
      let normalized = normalize_reset_password_session now session in
      clear_reset_password_success (record m {
        storage = save_stored_string session_key (encode normalized) m.storage;
        session = normalized;
      })

  abbrev start_session : ℤ → Storage → Storage × Option ResetPasswordSession
  unfolding save_stored_string normalize_reset_password_session load_stored_string
  start_session now storage = elim (load_stored_string session_key storage) [
    | none ↦ (storage, none)
    | some stored ↦ elim (parse stored) [
      | throws ↦ (save_stored_string session_key none storage, none)
      | misfit ↦ (storage, none)
      | fits s ↦ (storage, normalize_reset_password_session now s)
    ]
  ]

  -- The module when it is loaded, over what the storage holds.
  unfoldable pub start : ℤ → Storage → Memory
  unfolding save_stored_string normalize_reset_password_session load_stored_string
  start now storage = record {
    storage = (start_session now storage).0;
    email = load_stored_string email_key storage;
    session = (start_session now storage).1;
    success = false;
  }
