-- ===== src/AuthForm/Examples.antt =====
-- The forms at work over the user store.
use touhou_cloud_music_thcdb.Common.{◌≡◌, refl, none, some, Text, codes, [], ◌∷◌, arith}
use touhou_cloud_music_thcdb.Api.{right}
use touhou_cloud_music_thcdb.VerifyEmail.{sign_in, verify_email, inactive, ready, cooldown}
use touhou_cloud_music_thcdb.UserStore.{new, closed}
use touhou_cloud_music_thcdb.AuthForm.Instance.{user_store}
use touhou_cloud_music_thcdb.AuthForm.{Form, auth, resend, begin_resend, settle_resend}
use touhou_cloud_music_thcdb.AuthForm.Resend.{begin_resend-cooldown_zero}
use touhou_cloud_music_thcdb.AuthForm.System.{System, here, next, asks, IsSafe}
use touhou_cloud_music_thcdb.AuthForm.Interleaving.{Reach-IsSafe}

abbrev reimu : Text
reimu = codes "reimu@example.org"

abbrev form : Form user_store
form = record {
  mode = verify_email;
  submit_error = none;
  submit_info = none;
  verify_email_state = ready reimu;
  verification_email = some reimu;
  store = new none closed;
  route = auth;
}

abbrev zero_form : Form user_store
zero_form = record form { verify_email_state = cooldown reimu 0 }

begin_resend-cooldown_zero_example :
    ((begin_resend zero_form).1 ≡ some (resend reimu))
    × ((settle_resend (right 60) (begin_resend zero_form).0).verify_email_state ≡ cooldown reimu 0)
begin_resend-cooldown_zero_example = begin_resend-cooldown_zero zero_form reimu 60 refl refl

abbrev new_form : Form user_store
new_form = record form { mode = sign_in; verify_email_state = inactive; verification_email = none }

abbrev start : System user_store
start = record { form = form; waiting = [] }

start-IsSafe : IsSafe start
start-IsSafe = record { addressed = λ e p. ground arith; sent = tt }

Reach-IsSafe_example : IsSafe (record { form = (begin_resend form).0; waiting = resend reimu ∷ [] })
unfolding begin_resend
Reach-IsSafe_example = Reach-IsSafe start-IsSafe (next here asks)
