-- ===== src/UserStore/Socket.antt =====
-- The socket of the store, whatever happens.
use touhou_cloud_music_thcdb.Common.{
  ℕ, ◌≡◌, refl, Bool, true, Option, none, some, Text, text_eq, codes, arith, Bool-cases,
  Option-cases, inl, inr,
}
use mathlib.Core.Option.{some-ne-none}
use touhou_cloud_music_thcdb.Api.{Either, left, right, ApiError}
use touhou_cloud_music_thcdb.UserStore.{
  UserStore, Profile, Storage, connecting, new, on_open, on_message, on_close, on_reconnect_timer,
  sign_in, settle_refresh, update_user, sign_out, begin_flush, settle_load,
  connect_notification_socket, clear_session, settle_current_user, disconnect_notification_socket,
  is_unauthorized,
}
use touhou_cloud_music_thcdb.UserStore.Events.{
  Step, socket_opened, message, socket_closed, timer_fired, signed_in, signed_in_userless,
  refreshed, updated, signed_out, flushed, loaded, storage_changed, Reach, here, next, IsValid,
}

sign_out-state :
    (r : Either ApiError (Unit {0})) (s : UserStore) → (sign_out r s).0 ≡ clear_session s
unfolding sign_out
sign_out-state (left e) s = refl
sign_out-state (right u) s = refl

module _ {userless : Bool} where
  new-IsValid : (storage : Storage) → IsValid userless (new none storage)
  unfolding new
  new-IsValid storage = record {
    live_is_current = λ i h. cc;
    delay_low = omega arith;
    delay_high = omega arith;
    no_socket = λ u h. refl;
    no_timer = λ u h. refl;
  }

  connect-IsValid :
      (s : UserStore) → IsValid userless s → IsValid userless (connect_notification_socket s)
  unfolding connect_notification_socket
  connect-IsValid s v = record {
    live_is_current = λ i h. ground (arith, v.live_is_current i);
    delay_low = ground arith;
    delay_high = ground arith;
    no_socket = λ u h. ground arith;
    no_timer = λ u h. ground arith;
  }

  clear-IsValid : (s : UserStore) → IsValid userless s → IsValid userless (clear_session s)
  unfolding clear_session disconnect_notification_socket
  clear-IsValid s v = record {
    live_is_current = λ i h. ground (arith, v.live_is_current i);
    delay_low = ground arith;
    delay_high = ground arith;
    no_socket = λ u h. ground arith;
    no_timer = λ u h. ground arith;
  }

  on_open-IsValid :
      (i : ℕ) (s : UserStore)
      → s.socket_states i ≡ connecting
      → IsValid userless s
      → IsValid userless (on_open i s)
  unfolding on_open
  on_open-IsValid i s h v = record {
    live_is_current = λ j k. ground (arith, v.live_is_current j, v.live_is_current i);
    delay_low = ground arith;
    delay_high = ground arith;
    no_socket = λ u h. ground arith;
    no_timer = λ u h. ground arith;
  }

  on_close-IsValid : (i : ℕ) (s : UserStore) → IsValid userless s → IsValid userless (on_close i s)
  unfolding on_close
  on_close-IsValid i s v = record {
    live_is_current = λ j k. ground (arith, v.live_is_current j);
    delay_low = ground arith;
    delay_high = ground arith;
    no_socket = λ u h. ground arith;
    no_timer = λ u h. ground arith;
  }

  timer-IsValid : (s : UserStore) → IsValid userless s → IsValid userless (on_reconnect_timer s)
  unfolding on_reconnect_timer
  timer-IsValid s v =
      connect-IsValid (record s { reconnect_timer = none })
        (record {
          live_is_current = v.live_is_current;
          delay_low = v.delay_low;
          delay_high = v.delay_high;
          no_socket = v.no_socket;
          no_timer = λ u h. refl;
        })

  -- A change of the fields that the socket does not depend on.
  keep-IsValid :
      (s t : UserStore)
      → IsValid userless s
      → t.socket_states ≡ s.socket_states
      → t.notification_socket ≡ s.notification_socket
      → t.reconnect_delay_ms ≡ s.reconnect_delay_ms
      → t.reconnect_timer ≡ s.reconnect_timer
      → (t.user ≡ none → s.user ≡ none)
      → IsValid userless t
  keep-IsValid s t v a b c d e = record {
    live_is_current = λ i h. rw b (v.live_is_current i (rw a at h));
    delay_low = rw c v.delay_low;
    delay_high = rw c v.delay_high;
    no_socket = λ u h. rw b (v.no_socket u (e h));
    no_timer = λ u h. rw d (v.no_timer u (e h));
  }

  sign_in-IsValid :
      (p : Profile) (s : UserStore) → IsValid userless s → IsValid userless (sign_in (some p) s)
  unfolding sign_in
  sign_in-IsValid p s v =
      connect-IsValid _ (keep-IsValid s _ v refl refl refl refl (λ h. absurd (some-ne-none p h)))

  -- Without a user the socket and the timer stay.
  userless-IsValid :
      userless ≡ true → (s : UserStore) → IsValid userless s → IsValid userless (sign_in none s)
  unfolding sign_in connect_notification_socket
  userless-IsValid h s v = record {
    live_is_current = v.live_is_current;
    delay_low = v.delay_low;
    delay_high = v.delay_high;
    no_socket = λ u k. cc;
    no_timer = λ u k. cc;
  }

  load-IsValid :
      (r : Either ApiError (Option Profile)) (s : UserStore)
      → IsValid userless s
      → IsValid userless (settle_current_user r s)
  unfolding settle_current_user
  load-IsValid (left e) s v = elim (Bool-cases (is_unauthorized e)) [
    | inl yes_it_is ↦ rw yes_it_is (clear-IsValid s v)
    | inr other ↦ rw other v
  ]
  load-IsValid (right none) s v = clear-IsValid s v
  load-IsValid (right (some p)) s v = sign_in-IsValid p s v

  update_user-IsValid :
      (f : Profile → Profile) (s : UserStore)
      → IsValid userless s
      → IsValid userless (update_user f s)
  unfolding update_user
  update_user-IsValid f s v = elim (Option-cases s.user) [
    | inl out ↦
        keep-IsValid s _ v (ground arith) (ground arith) (ground arith) (ground arith) (λ h. out)
    | inr (p, signed) ↦
        keep-IsValid s _ v (ground arith) (ground arith) (ground arith) (ground arith)
          (λ h. ground arith)
  ]

  message-IsValid :
      (m : Option (Option Text)) (s : UserStore)
      → IsValid userless s
      → IsValid userless (on_message m s)
  unfolding on_message
  message-IsValid none s v = v
  message-IsValid (some none) s v = v
  message-IsValid (some (some type)) s v = elim (Bool-cases (text_eq type (codes "Notification"))) [
    | inl notified ↦ rw notified (keep-IsValid s _ v refl refl refl refl (λ h. h))
    | inr other ↦ rw other v
  ]

  pub Step-IsValid : {s t : UserStore} → Step userless s t → IsValid userless s → IsValid userless t
  unfolding settle_refresh begin_flush settle_load
  Step-IsValid {s} (socket_opened i h) v = on_open-IsValid i s h v
  Step-IsValid {s} (message i m h) v = message-IsValid m s v
  Step-IsValid {s} (socket_closed i h) v = on_close-IsValid i s v
  Step-IsValid {s} (timer_fired d h) v = timer-IsValid s v
  Step-IsValid {s} (signed_in p) v = sign_in-IsValid p s v
  Step-IsValid {s} (signed_in_userless u) v = userless-IsValid u s v
  Step-IsValid {s} (refreshed (left e)) v = v
  Step-IsValid {s} (refreshed (right n)) v = keep-IsValid s _ v refl refl refl refl (λ h. h)
  Step-IsValid {s} (updated f) v = update_user-IsValid f s v
  Step-IsValid {s} (signed_out r) v = rw (sign_out-state r s) (clear-IsValid s v)
  Step-IsValid {s} flushed v =
      keep-IsValid s _ v (ground arith) (ground arith) (ground arith) (ground arith)
        (λ h. ground arith)
  Step-IsValid {s} (loaded r) v =
      keep-IsValid (settle_current_user r s) _ (load-IsValid r s v) refl refl refl refl (λ h. h)
  Step-IsValid {s} (storage_changed x) v = keep-IsValid s _ v refl refl refl refl (λ h. h)

  Reach-IsValid : {s t : UserStore} → IsValid userless s → Reach userless s t → IsValid userless t
  Reach-IsValid v here = v
  Reach-IsValid v (next r st) = Step-IsValid st (Reach-IsValid v r)

  -- From a new store with no user, in every order of calls, replies and socket events: a live
  -- socket is the store's own, so there is at most one, and the next reconnect delay is between 1
  -- and 30 seconds. If `sign_in` is never called without a user, there is moreover no socket and no
  -- reconnect pending while no user is signed in.
  pub reachable-IsValid :
      (storage : Storage) (s : UserStore) → Reach userless (new none storage) s → IsValid userless s
  reachable-IsValid storage s r = Reach-IsValid (new-IsValid storage) r
