-- ===== src/UserStore/Backoff.antt =====
-- The delays between attempts to reconnect double up to half a minute.
use touhou_cloud_music_thcdb.Common.{
  ℕ, zero, suc, ◌*◌, ◌^◌, ◌≤◌, min, ◌≡◌, ap, ◌∙◌, none, some, arith,
}
use native.Mathlib.Nat.{pow-suc}
use touhou_cloud_music_thcdb.UserStore.{
  UserStore, Profile, max_delay_ms, on_close, on_reconnect_timer,
}

-- An attempt that fails: the current socket closes, and the timer that this starts fires.
pub fail_once : UserStore → ℕ → UserStore
fail_once s i = on_reconnect_timer (on_close i s)

fail_current : UserStore → UserStore
fail_current s = elim s.notification_socket [ some i ↦ fail_once s i | none ↦ s ]

fail_current_of :
    (s : UserStore) (i : ℕ) → s.notification_socket ≡ some i → fail_current s ≡ fail_once s i
unfolding fail_current
fail_current_of s i h = ground arith

min-double : (d k m : ℕ) → min (min (d * 2 ^ k) m * 2) m ≡ min (d * 2 ^ suc k) m
min-double d k m = omega (arith, ap (λ (t : ℕ). d * t) (pow-suc 2 k))

-- k attempts in a row fail, none of them after the socket had opened. Each closes the socket that
-- the attempt before has made.
pub failures : ℕ → UserStore → UserStore
failures zero s = s
failures (suc k) s = fail_current (failures k s)

-- The store is signed in and waits for its current socket, with no reconnect pending.
pub record IsConnecting (s : UserStore) (p : Profile) (i : ℕ) : Type 0 where
  pub signed_in : s.user ≡ some p
  pub current : s.notification_socket ≡ some i
  pub idle : s.reconnect_timer ≡ none

fail_once-IsConnecting :
    (s : UserStore) (p : Profile) (i : ℕ)
    → IsConnecting s p i
    → IsConnecting (fail_once s i) p s.made_sockets
      × ((fail_once s i).reconnect_delay_ms ≡ min (s.reconnect_delay_ms * 2) max_delay_ms)
      × ((on_close i s).reconnect_timer ≡ some s.reconnect_delay_ms)
unfolding fail_once on_close on_reconnect_timer
fail_once-IsConnecting s p i c = (
  record { signed_in = ground arith; current = ground arith; idle = ground arith },
  ground arith,
  ground arith,
)

-- After k failed attempts in a row, from a signed-in store that waits for its socket with a delay
-- of d ms, d at most 30 seconds, the store waits for a new socket, and if that closes too, the next
-- attempt is made after d * 2 ^ k ms, or after 30 seconds if that is less.
pub failures-delay :
    (k : ℕ) (s : UserStore) (p : Profile) (i : ℕ)
    → IsConnecting s p i
    → s.reconnect_delay_ms ≤ max_delay_ms
    → (j : ℕ) × IsConnecting (failures k s) p j
      × ((failures k s).reconnect_delay_ms ≡ min (s.reconnect_delay_ms * 2 ^ k) max_delay_ms)
      × ((on_close j (failures k s)).reconnect_timer
          ≡ some (min (s.reconnect_delay_ms * 2 ^ k) max_delay_ms))
unfolding failures
failures-delay zero s p i c h =
    let same : s.reconnect_delay_ms ≡ min (s.reconnect_delay_ms * 2 ^ 0) max_delay_ms =
      omega arith in
    (i, c, same, (fail_once-IsConnecting s p i c).2 ∙ ap some same)
failures-delay (suc k) s p i c h =
    let (j, waiting, delay, _) = failures-delay k s p i c h in
    let t = failures k s in
    let (again, doubled, scheduled) = fail_once-IsConnecting t p j waiting in
    let stands : (fail_once t j).reconnect_delay_ms
        ≡ min (s.reconnect_delay_ms * 2 ^ suc k) max_delay_ms =
      doubled
      ∙ ap (λ x. min (x * 2) max_delay_ms) delay
      ∙ min-double s.reconnect_delay_ms k max_delay_ms in
    rw (fail_current_of t j waiting.current) (
      t.made_sockets,
      again,
      stands,
      (fail_once-IsConnecting (fail_once t j) p t.made_sockets again).2 ∙ ap some stands,
    )
