-- ===== src/UserStore/Session.antt =====
-- Signing in and out, and loading the user at the start.
use touhou_cloud_music_thcdb.Common.{
  ℕ, ◌≡◌, refl, ◌≢◌, ◌⊎◌, ◌↔◌, inl, inr, true, false, Option, none, some, text_eq, arith,
  Bool-cases, Option-cases,
}
use touhou_cloud_music_thcdb.Api.{Either, left, right, ApiError}
use touhou_cloud_music_thcdb.UserStore.{
  UserStore, Profile, Storage, closed, holding, signed_in_hint_check, signed_in_hint_set, is_live,
  sign_in, sign_out, clear_session, settle_load, settle_current_user, is_unauthorized,
  ensure_current_user, disconnect_notification_socket, connect_notification_socket, first_delay_ms,
  end_loading,
}

-- What a cleared session leaves: no user and no hint, no unread notifications, no socket, no reconnect
-- pending, the first delay, and the old socket no longer live.
pub record IsCleared (before after : UserStore) : Type 0 where
  pub no_user : after.user ≡ none
  pub no_hint : signed_in_hint_check after.storage ≡ false
  pub no_unread : after.unread_count ≡ 0
  pub no_socket : after.notification_socket ≡ none
  pub no_timer : after.reconnect_timer ≡ none
  pub first_delay : after.reconnect_delay_ms ≡ first_delay_ms
  pub dead : (i : ℕ) → before.notification_socket ≡ some i → is_live (after.socket_states i) ≡ false

no_hint_after :
    (storage : Storage) → signed_in_hint_check (signed_in_hint_set false storage) ≡ false
unfolding signed_in_hint_check signed_in_hint_set
no_hint_after closed = refl
no_hint_after (holding v) = refl

clear_session-IsCleared : (s : UserStore) → IsCleared s (clear_session s)
unfolding clear_session disconnect_notification_socket
clear_session-IsCleared s = record {
  no_user = ground arith;
  no_hint = ground (arith, no_hint_after s.storage);
  no_unread = ground arith;
  no_socket = ground arith;
  no_timer = ground arith;
  first_delay = ground arith;
  dead = λ i h. ground arith;
}

abbrev pub error_of : Either ApiError (Unit {0}) → Option ApiError
error_of (left e) = some e
error_of (right _) = none

-- Signing out clears the session whatever the server answers, and throws exactly its error.
pub sign_out-IsCleared :
    (r : Either ApiError (Unit {0})) (s : UserStore)
    → IsCleared s (sign_out r s).0 × ((sign_out r s).1 ≡ error_of r)
unfolding sign_out
sign_out-IsCleared (left e) s = (clear_session-IsCleared s, refl)
sign_out-IsCleared (right u) s = (clear_session-IsCleared s, refl)

-- A store that keeps all but the loading flag.
pub record Keeps (before after : UserStore) : Type 0 where
  pub same_user : after.user ≡ before.user
  pub same_storage : after.storage ≡ before.storage
  pub same_unread : after.unread_count ≡ before.unread_count
  pub same_socket : after.notification_socket ≡ before.notification_socket
  pub same_timer : after.reconnect_timer ≡ before.reconnect_timer
  pub same_delay : after.reconnect_delay_ms ≡ before.reconnect_delay_ms
  pub same_made : after.made_sockets ≡ before.made_sockets
  pub same_states : after.socket_states ≡ before.socket_states

pub record IsSignedIn (p : Profile) (after : UserStore) : Type 0 where
  pub is_user : after.user ≡ some p
  pub hinted : (signed_in_hint_check after.storage ≡ true) ⊎ (after.storage ≡ closed)
  pub connected :
      (i : ℕ) × (after.notification_socket ≡ some i) × (is_live (after.socket_states i) ≡ true)

-- What the reply to the request for the user's profile leaves.
pub data Loads (before after : UserStore) : Either ApiError (Option Profile) → Type 0 where
  rejected :
      (e : ApiError)
      → e.status_code ≡ some 401
      → IsCleared before after
      → Loads before after (left e)
  failed :
      (e : ApiError) → e.status_code ≢ some 401 → Keeps before after → Loads before after (left e)
  no_profile : IsCleared before after → Loads before after (right none)
  profile : (p : Profile) → IsSignedIn p after → Loads before after (right (some p))

hint_after :
    (storage : Storage)
    → (signed_in_hint_check (signed_in_hint_set true storage) ≡ true)
      ⊎ (signed_in_hint_set true storage ≡ closed)
unfolding signed_in_hint_check signed_in_hint_set text_eq
hint_after closed = inr refl
hint_after (holding v) = inl refl

connect-live :
    (s : UserStore) (p : Profile)
    → s.user ≡ some p
    → let t = connect_notification_socket s in
      (i : ℕ) × (t.notification_socket ≡ some i) × (is_live (t.socket_states i) ≡ true)
unfolding connect_notification_socket
connect-live s p h = elim (Option-cases s.notification_socket) [
  | inl missing ↦ (s.made_sockets, ground arith, ground arith)
  | inr (i, found) ↦ elim (Bool-cases (is_live (s.socket_states i))) [
    | inl live ↦ (i, ground arith, ground arith)
    | inr dead ↦ (s.made_sockets, ground arith, ground arith)
  ]
]

connect-keeps :
    (s : UserStore)
    → ((connect_notification_socket s).user ≡ s.user)
      × ((connect_notification_socket s).storage ≡ s.storage)
unfolding connect_notification_socket
connect-keeps s = ground arith

sign_in-IsSignedIn : (p : Profile) (s : UserStore) → IsSignedIn p (sign_in (some p) s)
unfolding sign_in
sign_in-IsSignedIn p s =
    let t = record s { user = some p; storage = signed_in_hint_set true s.storage } in
    record {
      is_user = (connect-keeps t).0;
      hinted = rw (connect-keeps t).1 (hint_after s.storage);
      connected = connect-live t p refl;
    }

loading-IsCleared : {s t : UserStore} → IsCleared s t → IsCleared s (end_loading t)
loading-IsCleared c = record {
  no_user = c.no_user;
  no_hint = c.no_hint;
  no_unread = c.no_unread;
  no_socket = c.no_socket;
  no_timer = c.no_timer;
  first_delay = c.first_delay;
  dead = c.dead;
}

loading-IsSignedIn : {p : Profile} {t : UserStore} → IsSignedIn p t → IsSignedIn p (end_loading t)
loading-IsSignedIn c = record { is_user = c.is_user; hinted = c.hinted; connected = c.connected }

loading-Keeps : (s : UserStore) → Keeps s (end_loading s)
loading-Keeps s = record {
  same_user = refl;
  same_storage = refl;
  same_unread = refl;
  same_socket = refl;
  same_timer = refl;
  same_delay = refl;
  same_made = refl;
  same_states = refl;
}

unauthorized_status : (e : ApiError) → is_unauthorized e ≡ true → e.status_code ≡ some 401
unfolding is_unauthorized
unauthorized_status e h = ground arith

authorized_status : (e : ApiError) → is_unauthorized e ≡ false → e.status_code ≢ some 401
unfolding is_unauthorized
authorized_status e h k = ground arith

-- Whatever the reply to the load of the current user, loading has ended. A 401 and an empty profile
-- clear the session, any other error leaves all else as it was, and a profile signs that user in:
-- the hint is set, unless the storage is closed, and the notification socket is live.
pub settle_load-Loads :
    (r : Either ApiError (Option Profile)) (s : UserStore)
    → Loads s (settle_load r s) r × ((settle_load r s).is_loading ≡ false)
unfolding settle_load settle_current_user
settle_load-Loads (left e) s = elim (Bool-cases (is_unauthorized e)) [
  | inl refused ↦ rw refused (
    rejected e (unauthorized_status e refused) (loading-IsCleared (clear_session-IsCleared s)),
    refl,
  )
  | inr other ↦ rw other (failed e (authorized_status e other) (loading-Keeps s), refl)
]
settle_load-Loads (right none) s =
    (no_profile (loading-IsCleared (clear_session-IsCleared s)), refl)
settle_load-Loads (right (some p)) s =
    (profile p (loading-IsSignedIn (sign_in-IsSignedIn p s)), refl)

ensure-user :
    (r : Either ApiError (Option Profile)) (storage : Storage) (p : Profile)
    → signed_in_hint_check storage ≡ true
    → ((ensure_current_user r storage).1 ≡ some p) ↔ (r ≡ right (some p))
unfolding ensure_current_user
ensure-user (left e) storage p h = ground arith
ensure-user (right none) storage p h = ground arith
ensure-user (right (some q)) storage p h = ground arith

ensure-drops :
    (r : Either ApiError (Option Profile)) (storage : Storage)
    → signed_in_hint_check storage ≡ true
    → signed_in_hint_check (ensure_current_user r storage).0 ≡ false
    → (r ≡ right none) ⊎ ((e : ApiError) × (r ≡ left e) × (e.status_code ≡ some 401))
unfolding ensure_current_user
ensure-drops (left e) storage h k = elim (Bool-cases (is_unauthorized e)) [
  | inl refused ↦ inr (e, refl, unauthorized_status e refused)
  | inr other ↦ absurd (ground arith)
]
ensure-drops (right none) storage h k = inl refl
ensure-drops (right (some q)) storage h k = absurd (ground arith)

status_unauthorized : (e : ApiError) → e.status_code ≡ some 401 → is_unauthorized e ≡ true
unfolding is_unauthorized
status_unauthorized e h = ground arith

ensure-dropped :
    (r : Either ApiError (Option Profile)) (storage : Storage)
    → signed_in_hint_check storage ≡ true
    → (r ≡ right none) ⊎ ((e : ApiError) × (r ≡ left e) × (e.status_code ≡ some 401))
    → signed_in_hint_check (ensure_current_user r storage).0 ≡ false
unfolding ensure_current_user
ensure-dropped r storage h (inl e) = rw (e, h) (no_hint_after storage)
ensure-dropped r storage h (inr (x, e, k)) =
    rw (e, h) (rw (status_unauthorized x k) (no_hint_after storage))

-- The user and the hint that a route guard finds, where the hint is set: the user is the reply's,
-- and the hint is dropped exactly on a 401 and on an empty profile.
pub ensure_current_user_lem :
    (r : Either ApiError (Option Profile)) (storage : Storage)
    → signed_in_hint_check storage ≡ true
    → ((p : Profile) → ((ensure_current_user r storage).1 ≡ some p) ↔ (r ≡ right (some p)))
      × ((signed_in_hint_check (ensure_current_user r storage).0 ≡ false)
          ↔ ((r ≡ right none) ⊎ ((e : ApiError) × (r ≡ left e) × (e.status_code ≡ some 401))))
ensure_current_user_lem r storage h =
    (λ p. ensure-user r storage p h, (ensure-drops r storage h, ensure-dropped r storage h))
