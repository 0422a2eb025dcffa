-- ===== src/UserStore.antt =====
-- The store of the signed-in user: web/frontend/src/state/user/index.tsx, with the hint in local
-- storage and the notification socket. A method that awaits a request is its part before the
-- request and its part after the reply; the callbacks of a socket are operations of their own.
mod Hint
mod Preferences
unfoldable pub use Hint.*
unfoldable pub use Preferences.*
pub mod Session
pub mod Events
pub mod Socket
pub mod Backoff
pub mod Notifications
mod Examples
use touhou_cloud_music_thcdb.Common.{
  ℕ, zero, suc, ◌+◌, ◌*◌, min, Bool, true, false, ◌||◌, ◌&&◌, not, Option, none, some, Text,
  text_eq, codes, List, [], ◌∷◌, ltb, ◌==◌, is_some, if◌then◌else◌, map,
}
use touhou_cloud_music_thcdb.Api.{Either, left, right, ApiError}
use touhou_cloud_music_thcdb.Api.Values.{Json, bool, obj, prop}

-- `WebSocket.readyState`
pub data ReadyState : Type 0 where
  connecting opened closing shut : ReadyState

abbrev pub is_live : ReadyState → Bool
is_live connecting = true
is_live opened = true
is_live _ = false

pub record Profile : Type 0 where
  pub name : Text
  pub settings : Option Json

-- The signals and private fields. Sockets are numbered in the order in which they are made, and
-- `socket_states` is what the browser holds of each; `timer` is the delay of the pending reconnect.
pub record UserStore : Type 0 where
  pub user : Option Profile
  pub is_loading : Bool
  pub unread_count : ℕ
  pub notification_socket : Option ℕ
  pub reconnect_delay_ms : ℕ
  pub reconnect_timer : Option ℕ
  pub made_sockets : ℕ
  pub socket_states : ℕ → ReadyState
  pub storage : Storage

abbrev pub first_delay_ms : ℕ
first_delay_ms = 1000

abbrev pub max_delay_ms : ℕ
max_delay_ms = 30000

unfoldable pub new : Option Profile → Storage → UserStore
unfolding signed_in_hint_check
new user storage = record {
  user = user;
  is_loading = not (is_some user) && signed_in_hint_check storage;
  unread_count = 0;
  notification_socket = none;
  reconnect_delay_ms = first_delay_ms;
  reconnect_timer = none;
  made_sockets = 0;
  socket_states = λ i. shut;
  storage = storage;
}

abbrev pub put_state : ℕ → ReadyState → UserStore → UserStore
put_state i r s = record s { socket_states = λ j. if i == j then r else s.socket_states j }

-- `ws.close()`: the close event comes later; a socket that is shut stays so.
abbrev close_state : ReadyState → ReadyState
close_state shut = shut
close_state r = closing

abbrev close_socket : Option ℕ → UserStore → UserStore
close_socket none s = s
close_socket (some i) s = record (put_state i (close_state (s.socket_states i)) s) {
  notification_socket = none;
}

unfoldable pub disconnect_notification_socket : UserStore → UserStore
disconnect_notification_socket s =
    record (close_socket s.notification_socket (record s { reconnect_timer = none })) {
      reconnect_delay_ms = first_delay_ms;
    }

abbrev socket_is_live : Option ℕ → (ℕ → ReadyState) → Bool
socket_is_live none states = false
socket_is_live (some i) states = is_live (states i)

abbrev make_socket : UserStore → UserStore
make_socket s = record (put_state s.made_sockets connecting s) {
  notification_socket = some s.made_sockets;
  made_sockets = suc s.made_sockets;
}

unfoldable pub connect_notification_socket : UserStore → UserStore
connect_notification_socket s =
    if not (is_some s.user)
    then s
    else if socket_is_live s.notification_socket s.socket_states
    then s
    else make_socket s

-- The listeners; the browser has set the state of socket `i` before it calls them.
unfoldable pub on_open : ℕ → UserStore → UserStore
on_open i s = record (put_state i opened s) { reconnect_delay_ms = first_delay_ms }

-- `type` of a message that parses and fits the schema, `none` for any other message.
unfoldable pub on_message : Option (Option Text) → UserStore → UserStore
on_message (some (some type)) s =
    if text_eq type (codes "Notification")
    then record s { unread_count = s.unread_count + 1 }
    else s
on_message _ s = s

abbrev schedule_reconnect : UserStore → UserStore
schedule_reconnect s = record s {
  reconnect_timer = some s.reconnect_delay_ms;
  reconnect_delay_ms = min (s.reconnect_delay_ms * 2) max_delay_ms;
}

unfoldable pub on_close : ℕ → UserStore → UserStore
on_close i s =
    let gone = put_state i shut s in
    if not (is_some s.user)
    then gone
    else if is_some s.reconnect_timer
    then gone
    else schedule_reconnect gone

-- The callback of the reconnect timer.
unfoldable pub on_reconnect_timer : UserStore → UserStore
unfolding connect_notification_socket
on_reconnect_timer s = connect_notification_socket (record s { reconnect_timer = none })

-- The request that `refreshNotifications` sends is answered by `settle_refresh`.
unfoldable pub sign_in : Option Profile → UserStore → UserStore
unfolding connect_notification_socket signed_in_hint_set
sign_in user s =
    connect_notification_socket
      (record s { user = user; storage = signed_in_hint_set (is_some user) s.storage })

unfoldable pub settle_refresh : Either ApiError ℕ → UserStore → UserStore
settle_refresh (left e) s = s
settle_refresh (right count) s = record s { unread_count = count }

unfoldable pub update_user : (Profile → Profile) → UserStore → UserStore
update_user updater s = elim s.user [ some p ↦ record s { user = some (updater p) } | none ↦ s ]

unfoldable pub clear_session : UserStore → UserStore
unfolding disconnect_notification_socket signed_in_hint_set
clear_session s =
    disconnect_notification_socket
      (record s { user = none; storage = signed_in_hint_set false s.storage; unread_count = 0 })

-- The session is cleared whatever the server answers; an error is thrown on.
unfoldable pub sign_out : Either ApiError (Unit {0}) → UserStore → UserStore × Option ApiError
unfolding clear_session
sign_out (left e) s = (clear_session s, some e)
sign_out (right _) s = (clear_session s, none)

unfoldable pub is_unauthorized : ApiError → Bool
is_unauthorized e = elim e.status_code [ some n ↦ n == 401 | none ↦ false ]

-- The reply to `UserApi.profile()` in `loadCurrentUser`.
unfoldable pub settle_current_user : Either ApiError (Option Profile) → UserStore → UserStore
unfolding clear_session sign_in is_unauthorized
settle_current_user (left e) s = if is_unauthorized e then clear_session s else s
settle_current_user (right none) s = clear_session s
settle_current_user (right (some p)) s = sign_in (some p) s

abbrev end_loading : UserStore → UserStore
end_loading s = record s { is_loading = false }

-- `trySignIn` and `flush` up to the request; the test says whether it is sent.
unfoldable pub begin_try_sign_in : UserStore → UserStore × Bool
begin_try_sign_in s = (s, not (is_some s.user || not s.is_loading))

unfoldable pub begin_flush : UserStore → UserStore × Bool
unfolding signed_in_hint_check
begin_flush s =
    if s.is_loading || not (signed_in_hint_check s.storage)
    then (s, false)
    else (record s { is_loading = true }, true)

-- their `try … finally`
unfoldable pub settle_load : Either ApiError (Option Profile) → UserStore → UserStore
unfolding settle_current_user
settle_load r s = end_loading (settle_current_user r s)

-- `ensureCurrentUser`, over the storage alone: the hint after the reply, and the user.
unfoldable pub ensure_current_user :
    Either ApiError (Option Profile) → Storage → Storage × Option Profile
unfolding signed_in_hint_check signed_in_hint_set is_unauthorized
ensure_current_user r storage =
    if signed_in_hint_check storage
    then elim r [
      | left e ↦ (if is_unauthorized e then signed_in_hint_set false storage else storage, none)
      | right none ↦ (signed_in_hint_set false storage, none)
      | right (some p) ↦ (storage, some p)
    ]
    else (storage, none)

pub data NotificationState : Type 0 where
  quiet unread muted : NotificationState

unfoldable pub notification_state : UserStore → NotificationState
notification_state s = elim s.user [
  | none ↦ quiet
  | some p ↦
      if ltb 0 s.unread_count
      then unread
      else if has_enabled_notification
          (get_object (member (get_object p.settings) (codes "notification")))
      then quiet
      else muted
]
