-- ===== src/UserStore/Preferences.antt =====
-- The settings that switch notifications off: hasEnabledNotification of
-- web/frontend/src/state/user/index.tsx.
use touhou_cloud_music_thcdb.Common.{
  Bool, true, false, ◌||◌, Option, none, some, Text, codes, List, [], ◌∷◌, map,
}
use touhou_cloud_music_thcdb.Api.Values.{Json, bool, obj, prop}

abbrev pub notification_keys : List Text
notification_keys =
    codes "comment_reply_enabled"
    ∷ codes "comment_mention_enabled"
    ∷ codes "correction_status_enabled"
    ∷ codes "new_follower_enabled"
    ∷ []

abbrev pub any : List Bool → Bool
any [] = false
any (b ∷ bs) = b || any bs

-- `getObject`: objects only
abbrev pub get_object : Option Json → Option Json
get_object (some (obj fs)) = some (obj fs)
get_object _ = none

abbrev pub is_enabled : Option Json → Bool
is_enabled (some (bool b)) = b
is_enabled _ = true

abbrev pub member : Option Json → Text → Option Json
member none k = none
member (some j) k = prop j k

unfoldable pub has_enabled_notification : Option Json → Bool
unfolding prop
has_enabled_notification preference =
    any (map (λ k. is_enabled (member preference k)) notification_keys)
