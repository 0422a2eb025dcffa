-- ===== src/UserStore/Examples.antt =====
-- Lives of the user store.
use touhou_cloud_music_thcdb.Common.{◌≡◌, refl, false, Option, none, some, Text, codes, text_eq}
use touhou_cloud_music_thcdb.Api.{Either, left, right, ApiError, response_only}
use touhou_cloud_music_thcdb.Api.Values.{Json, bool, obj, end, entry, prop}
use touhou_cloud_music_thcdb.UserStore.{
  UserStore, Profile, Storage, holding, new, sign_in, sign_out, settle_load, settle_refresh,
  notification_state, unread, muted, on_close, on_open, has_enabled_notification,
  on_reconnect_timer,
}
use touhou_cloud_music_thcdb.UserStore.Events.{
  here, next, signed_in, socket_opened, socket_closed, IsValid,
}
use touhou_cloud_music_thcdb.UserStore.Socket.{reachable-IsValid}
use touhou_cloud_music_thcdb.UserStore.Session.{Loads, settle_load-Loads}
use touhou_cloud_music_thcdb.UserStore.Backoff.{IsConnecting}
use touhou_cloud_music_thcdb.UserStore.Notifications.{stale_refresh}

abbrev cirno : Profile
cirno = record { name = codes "cirno"; settings = none }

abbrev off : Text → Json → Json
off k (obj fs) = obj (entry k (bool false) fs)
off k j = j

abbrev silent : Profile
silent = record {
  name = codes "yuuka";
  settings = some (
      obj (
        entry (codes "notification")
          (off (codes "comment_reply_enabled") (
            off (codes "comment_mention_enabled") (
              off (codes "correction_status_enabled")
                (off (codes "new_follower_enabled") (obj end)))))
          end));
}

abbrev hinted : Storage
hinted = holding (some (codes "1"))

abbrev fresh : UserStore
fresh = new none hinted

abbrev one : UserStore
one = sign_in (some cirno) fresh

silent_is_muted : notification_state (sign_in (some silent) fresh) ≡ muted
unfolding notification_state has_enabled_notification sign_in new prop text_eq
silent_is_muted = refl

second_delay : (on_close 1 (on_reconnect_timer (on_close 0 one))).reconnect_timer ≡ some 2000
unfolding on_close on_reconnect_timer sign_in new
second_delay = refl

reachable-IsValid_example : IsValid false (on_close 0 (on_open 0 one))
unfolding new sign_in on_open
reachable-IsValid_example =
    reachable-IsValid hinted (on_close 0 (on_open 0 one))
      (next (next (next here (signed_in cirno)) (socket_opened 0 refl)) (socket_closed 0 (λ e. cc)))

abbrev refused : ApiError
refused = record {
  type = response_only;
  error = codes "Unauthorized";
  status_code = some 401;
  detail = none;
}

settle_load-Loads_example :
    Loads fresh (settle_load (left refused) fresh) (left refused)
    × ((settle_load (left refused) fresh).is_loading ≡ false)
settle_load-Loads_example = settle_load-Loads (left refused) fresh

abbrev reply : Either ApiError (Option Profile)
reply = right (some cirno)

one-IsConnecting : IsConnecting one cirno 0
unfolding sign_in new
one-IsConnecting = record { signed_in = refl; current = refl; idle = refl }

stale_refresh_example :
    notification_state
      (sign_in (some silent) (settle_refresh (right 3) (sign_out (right tt) one).0))
    ≡ unread
stale_refresh_example = stale_refresh one (right tt) 2 silent
