-- ===== src/UserStore/Notifications.antt =====
-- The state that the bell shows.
use touhou_cloud_music_thcdb.Common.{
  ℕ, suc, ◌<◌, ◌≡◌, refl, ◌↔◌, false, Option, none, some, Text, List, [], ◌∷◌, All, codes, map,
  arith, Option-cases, inl, inr,
}
use touhou_cloud_music_thcdb.Api.{Either, right, ApiError}
use touhou_cloud_music_thcdb.Api.Values.{Json, bool}
use touhou_cloud_music_thcdb.UserStore.{
  UserStore, Profile, unread, muted, notification_state, notification_keys, any,
  has_enabled_notification, get_object, member, is_enabled, sign_in, sign_out, settle_refresh,
}

-- Every kind of notification is switched off, by a member that is `false`.
abbrev pub IsAllOff : Option Json → Type 0
IsAllOff preference = All (λ k. member preference k ≡ some (bool false)) notification_keys

is_enabled-false : (v : Option Json) → (is_enabled v ≡ false) → v ≡ some (bool false)
is_enabled-false none h = cc
is_enabled-false (some (bool b)) h = rw h refl
is_enabled-false (some _) h = cc

any_off :
    (pref : Option Json) (ks : List Text)
    → any (map (λ k. is_enabled (member pref k)) ks) ≡ false
    → All (λ k. member pref k ≡ some (bool false)) ks
any_off pref [] h = tt
any_off pref (k ∷ ks) h =
    (is_enabled-false (member pref k) (ground arith), any_off pref ks (ground arith))

all_off :
    (pref : Option Json) (ks : List Text)
    → All (λ k. member pref k ≡ some (bool false)) ks
    → any (map (λ k. is_enabled (member pref k)) ks) ≡ false
all_off pref [] h = refl
all_off pref (k ∷ ks) (e, h) = rw e (all_off pref ks h)

has_enabled_iff : (pref : Option Json) → (has_enabled_notification pref ≡ false) ↔ IsAllOff pref
unfolding has_enabled_notification
has_enabled_iff pref = (any_off pref notification_keys, all_off pref notification_keys)

abbrev pub preferences : Profile → Option Json
preferences p = get_object (member (get_object p.settings) (codes "notification"))

unread_of :
    (s : UserStore)
    → notification_state s ≡ unread
    → (p : Profile) × (s.user ≡ some p) × (0 < s.unread_count)
unfolding notification_state
unread_of s h = elim (Option-cases s.user) [
  | inl out ↦ absurd (ground arith)
  | inr (p, signed) ↦ (p, signed, ground arith)
]

muted_of :
    (s : UserStore)
    → notification_state s ≡ muted
    → (p : Profile) × (s.user ≡ some p) × (s.unread_count ≡ 0) × IsAllOff (preferences p)
unfolding notification_state
muted_of s h = elim (Option-cases s.user) [
  | inl out ↦ absurd (ground arith)
  | inr (p, signed) ↦ (p, signed, ground arith, (has_enabled_iff (preferences p)).0 (ground arith))
]

unread_by :
    (s : UserStore) (p : Profile)
    → s.user ≡ some p
    → 0 < s.unread_count
    → notification_state s ≡ unread
unfolding notification_state
unread_by s p h k = ground arith

muted_by :
    (s : UserStore) (p : Profile)
    → s.user ≡ some p
    → s.unread_count ≡ 0
    → has_enabled_notification (preferences p) ≡ false
    → notification_state s ≡ muted
unfolding notification_state
muted_by s p h k l = ground arith

-- The bell shows unread notifications exactly when a user is signed in and the count is not 0. It
-- is muted exactly when a user is signed in, the count is 0, and the settings hold an object of
-- preferences in which each of the four kinds is `false`.
pub notification_state_iff :
    (s : UserStore)
    → ((notification_state s ≡ unread) ↔ ((p : Profile) × (s.user ≡ some p) × (0 < s.unread_count)))
      × ((notification_state s ≡ muted)
          ↔ ((p : Profile) × (s.user ≡ some p) × (s.unread_count ≡ 0) × IsAllOff (preferences p)))
notification_state_iff s = (
  (unread_of s, λ (p, signed, some_left). unread_by s p signed some_left),
  (
    muted_of s,
    λ (p, signed, none_left, off).
        muted_by s p signed none_left ((has_enabled_iff (preferences p)).1 off),
  ),
)

-- A count that arrives after the user has signed out is kept, and the next user who signs in is
-- shown as having unread notifications, whoever it was for.
pub stale_refresh :
    (s : UserStore) (r : Either ApiError (Unit {0})) (n : ℕ) (p : Profile)
    → notification_state (sign_in (some p) (settle_refresh (right (suc n)) (sign_out r s).0))
      ≡ unread
unfolding notification_state sign_in settle_refresh
stale_refresh s r n p = ground arith
