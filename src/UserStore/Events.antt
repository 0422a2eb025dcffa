-- ===== src/UserStore/Events.antt =====
-- Every order of calls, replies and socket events.
use touhou_cloud_music_thcdb.Common.{ℕ, ◌≤◌, ◌≡◌, ◌≢◌, Bool, true, false, Option, none, some, Text}
use touhou_cloud_music_thcdb.Api.{Either, ApiError}
use touhou_cloud_music_thcdb.UserStore.{
  UserStore, Profile, Storage, connecting, opened, shut, is_live, first_delay_ms, max_delay_ms,
  on_open, on_message, on_close, on_reconnect_timer, sign_in, settle_refresh, update_user, sign_out,
  begin_flush, settle_load,
}

-- One event. The browser opens a socket that is connecting, delivers to one that is open, and closes
-- any that is not shut; a reply may come at any time, also after the call that asked for it is
-- forgotten. The storage may change at any time, by another tab or by `ensureCurrentUser`. The
-- argument says whether `sign_in` may also be called without a user, as its signature lets it.
pub data Step (userless : Bool) (s : UserStore) : UserStore → Type 0 where
  socket_opened : (i : ℕ) → s.socket_states i ≡ connecting → Step userless s (on_open i s)
  message :
      (i : ℕ) (m : Option (Option Text))
      → s.socket_states i ≡ opened
      → Step userless s (on_message m s)
  socket_closed : (i : ℕ) → s.socket_states i ≢ shut → Step userless s (on_close i s)
  timer_fired : (d : ℕ) → s.reconnect_timer ≡ some d → Step userless s (on_reconnect_timer s)
  signed_in : (p : Profile) → Step userless s (sign_in (some p) s)
  signed_in_userless : userless ≡ true → Step userless s (sign_in none s)
  refreshed : (r : Either ApiError ℕ) → Step userless s (settle_refresh r s)
  updated : (f : Profile → Profile) → Step userless s (update_user f s)
  signed_out : (r : Either ApiError (Unit {0})) → Step userless s (sign_out r s).0
  flushed : Step userless s (begin_flush s).0
  loaded : (r : Either ApiError (Option Profile)) → Step userless s (settle_load r s)
  storage_changed : (v : Storage) → Step userless s (record s { storage = v })

pub data Reach (userless : Bool) (s : UserStore) : UserStore → Type 0 where
  here : Reach userless s s
  next : {t u : UserStore} → Reach userless s t → Step userless t u → Reach userless s u

-- The last two hold where `sign_in` is never called without a user.
pub record IsValid (userless : Bool) (s : UserStore) : Type 0 where
  -- a live socket is the store's, so there is one at most
  pub live_is_current :
      (i : ℕ) → is_live (s.socket_states i) ≡ true → s.notification_socket ≡ some i
  pub delay_low : first_delay_ms ≤ s.reconnect_delay_ms
  pub delay_high : s.reconnect_delay_ms ≤ max_delay_ms
  pub no_socket : userless ≡ false → s.user ≡ none → s.notification_socket ≡ none
  pub no_timer : userless ≡ false → s.user ≡ none → s.reconnect_timer ≡ none
