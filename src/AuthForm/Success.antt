-- ===== src/AuthForm/Success.antt =====
-- What a successful sign-in, verification and sign-up leave behind.
use touhou_cloud_music_thcdb.Common.{
  ℕ, ◌≡◌, refl, ◌⊎◌, true, none, some, Text, nonempty, trim, text_eq, text_eq_refl, arith,
}
use touhou_cloud_music_thcdb.Api.{right}
use touhou_cloud_music_thcdb.VerifyEmail.{verify_email, cooldown, save_verification_email}
use touhou_cloud_music_thcdb.AuthForm.Interface.{Users}
use touhou_cloud_music_thcdb.AuthForm.{
  Form, home, auth, settle_sign_in, settle_verify_email, settle_sign_up,
}

-- Both replies that sign a user in: the user is the store's, the address is forgotten, the route is
-- the home page, and the form's messages, mode and verification state are as they were.
pub record IsAdmitted (users : Users) (p : users.Profile) (before after : Form users) : Type 0 where
  pub signed_in : users.user_of after.store ≡ some p
  pub forgotten : after.verification_email ≡ none
  pub at_home : after.route ≡ home
  pub same_state : after.verify_email_state ≡ before.verify_email_state
  pub same_error : after.submit_error ≡ before.submit_error

module _ (users : Users) where
  pub settle-IsAdmitted :
      (p : users.Profile) (f : Form users)
      → IsAdmitted users p f (settle_sign_in users (right p) f)
        × IsAdmitted users p f (settle_verify_email users (right p) f)
  unfolding settle_sign_in settle_verify_email
  settle-IsAdmitted p f = (admitted, admitted)
    where
      admitted : IsAdmitted users p f (settle_sign_in users (right p) f)
      admitted = record {
        signed_in = users.user_of-sign_in p f.store;
        forgotten = refl;
        at_home = refl;
        same_state = refl;
        same_error = refl;
      }

save-trimmed : (e : Text) → nonempty e ≡ true → trim e ≡ e → save_verification_email e ≡ some e
unfolding save_verification_email
save-trimmed e h k = rw k (rw h)

module _ {users : Users} where
  -- After a successful sign-up with an address that is not empty and has no space around it, the
  -- form is in the mode "verify_email", the address is remembered, and the cooldown that the reply
  -- names has started: the change of mode does not disturb it. Coming from another mode, no message
  -- is left.
  pub settle_sign_up-cooldown :
      (f : Form users) (e : Text) (n : ℕ)
      → nonempty e ≡ true
      → trim e ≡ e
      → let after = settle_sign_up e (right n) f in
        (after.mode ≡ verify_email)
        × (after.verification_email ≡ some e)
        × (after.verify_email_state ≡ cooldown e n)
        × (after.route ≡ auth)
        × ((f.mode ≡ verify_email) ⊎ ((after.submit_error ≡ none) × (after.submit_info ≡ none)))
  unfolding settle_sign_up text_eq
  settle_sign_up-cooldown f e n h k = ground (arith, save-trimmed e h k, text_eq_refl e)
