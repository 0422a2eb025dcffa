-- ===== src/VerifyEmail/Cooldown.antt =====
-- The cooldown runs down: what the timer of useAuthForm does, one tick a second.
use touhou_cloud_music_thcdb.Common.{
  ℕ, zero, suc, ◌-◌, ◌≡◌, refl, Option, Text, max, ltb, arith, if◌then◌else◌,
}
use touhou_cloud_music_thcdb.VerifyEmail.{
  VerifyEmailState, ready, cooldown, tick, update_verify_email_state,
}

pub ticks : Option Text → ℕ → VerifyEmailState → VerifyEmailState
ticks stored zero s = s
ticks stored (suc n) s = ticks stored n (update_verify_email_state stored s tick)

ticks-ready : (stored : Option Text) (n : ℕ) (e : Text) → ticks stored n (ready e) ≡ ready e
unfolding ticks update_verify_email_state
ticks-ready stored zero e = refl
ticks-ready stored (suc n) e = ticks-ready stored n e

-- After n seconds a cooldown of k seconds shows k - n seconds, until the last of them has passed;
-- from then on the state is `ready` for the same address. A cooldown of 0 seconds lasts one tick.
pub ticks-cooldown :
    (stored : Option Text) (n k : ℕ) (e : Text)
    → ticks stored n (cooldown e k) ≡ (if ltb n (max 1 k) then cooldown e (k - n) else ready e)
unfolding ticks update_verify_email_state
ticks-cooldown stored zero k e = ground arith
ticks-cooldown stored (suc n) k e =
    ground (arith, ticks-cooldown stored n (k - 1) e, ticks-ready stored n e)
