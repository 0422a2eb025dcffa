-- ===== src/VerifyEmail/Laws.antt =====
-- How the address and the phase of the verification state change, event by event.
use touhou_cloud_music_thcdb.Common.{
  ℕ, ◌≡◌, refl, ◌⊎◌, inl, inr, Bool, true, false, Option, some, Text, text_eq_iff, nonempty, arith,
  Option-cases, or_else, ◌<◌, ◌+◌,
}
use touhou_cloud_music_thcdb.VerifyEmail.{
  verify_email, VerifyEmailState, inactive, missing_session, ready, resending, cooldown,
  VerifyEmailEvent, sync, seed_after_signup, start_resend, resend_success, tick, email_of, truthy,
  enter, update_verify_email_state, save_verification_email,
}

-- The address that a request for a new code would go to is not empty.
abbrev pub IsAddressed : VerifyEmailState → Type 0
IsAddressed s = (e : Text) → email_of s ≡ some e → nonempty e ≡ true

abbrev pub IsSeedAddressed : VerifyEmailEvent → Type 0
IsSeedAddressed (seed_after_signup e n) = nonempty e ≡ true
IsSeedAddressed ev = Unit {0}

email_of-enter : (s : VerifyEmailState) (e : Text) → email_of (enter s (some e)) ≡ some e
email_of-enter inactive e = refl
email_of-enter missing_session e = refl
email_of-enter s e = ground (arith, text_eq_iff (or_else (email_of s) e) e)

pub save-nonempty : (raw e : Text) → save_verification_email raw ≡ some e → nonempty e ≡ true
unfolding save_verification_email
save-nonempty raw e h = ground arith

-- Every event keeps the address non-empty, when a sign-up seeds a non-empty one.
pub update-IsAddressed :
    (stored : Option Text) (s : VerifyEmailState) (ev : VerifyEmailEvent)
    → IsAddressed s
    → IsSeedAddressed ev
    → IsAddressed (update_verify_email_state stored s ev)
unfolding update_verify_email_state
update-IsAddressed stored s ev h k e p = ground (arith, h e)

-- The only way into `resending` is the event "start_resend" in the state `ready`, for the same
-- address; every other event that ends there has left the state alone.
pub update-eq-resending :
    (stored : Option Text) (s : VerifyEmailState) (ev : VerifyEmailEvent) (e : Text)
    → update_verify_email_state stored s ev ≡ resending e
    → ((s ≡ ready e) × (ev ≡ start_resend)) ⊎ (s ≡ resending e)
unfolding update_verify_email_state
update-eq-resending stored s ev e h = ground arith

-- The only ways into `cooldown` are a sign-up, a successful resend of the same address, a second
-- that passes in a longer cooldown of the same address, and an event that leaves the state alone.
pub update-eq-cooldown :
    (stored : Option Text) (s : VerifyEmailState) (ev : VerifyEmailEvent) (e : Text) (n : ℕ)
    → update_verify_email_state stored s ev ≡ cooldown e n
    → (ev ≡ seed_after_signup e n)
      ⊎ ((s ≡ resending e) × (ev ≡ resend_success n))
      ⊎ ((s ≡ cooldown e (n + 1)) × (ev ≡ tick) × (0 < n))
      ⊎ (s ≡ cooldown e n)
unfolding update_verify_email_state
update-eq-cooldown stored s ev e n h = ground arith

-- The events other than "sync" and "seed_after_signup", as a test.
abbrev pub keeps_email : VerifyEmailEvent → Bool
keeps_email (sync m) = false
keeps_email (seed_after_signup e n) = false
keeps_email ev = true

-- The address changes only by "sync" and by "seed_after_signup".
pub email_of-update :
    (stored : Option Text) (s : VerifyEmailState) (ev : VerifyEmailEvent)
    → keeps_email ev ≡ true
    → email_of (update_verify_email_state stored s ev) ≡ email_of s
unfolding update_verify_email_state
email_of-update stored s ev h = ground arith

-- After "sync" in the mode "verify_email" the state is about the remembered address, or there is
-- none and the session is missing.
pub email_of-update-sync :
    (stored : Option Text) (s : VerifyEmailState)
    → email_of (update_verify_email_state stored s (sync verify_email)) ≡ truthy stored
unfolding update_verify_email_state
email_of-update-sync stored s = elim (Option-cases (truthy stored)) [
  | inl missing ↦ rw missing
  | inr (e, found) ↦ rw found (email_of-enter s e)
]
