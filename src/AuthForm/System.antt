-- ===== src/AuthForm/System.antt =====
-- Every order of events and replies: the forms as a system with requests on their way.
use touhou_cloud_music_thcdb.Common.{
  ℕ, ◌≡◌, true, Option, none, some, Text, nonempty, List, ◌∷◌, ◌++◌, All,
}
use touhou_cloud_music_thcdb.Api.{Either, ApiError}
use touhou_cloud_music_thcdb.VerifyEmail.{Mode}
use touhou_cloud_music_thcdb.VerifyEmail.Laws.{IsAddressed}
use touhou_cloud_music_thcdb.AuthForm.Interface.{Users}
use touhou_cloud_music_thcdb.AuthForm.{
  Form, Request, signin, signup, verify, resend, set_mode, navigate_auth, tick_second,
  begin_sign_in, begin_sign_up, begin_verify_email, begin_resend, settle_sign_in, settle_sign_up,
  settle_verify_email, settle_resend,
}

-- The forms, and the requests that have no reply yet.
pub record System (users : Users) : Type 0 where
  pub form : Form users
  pub waiting : List Request

abbrev pub issue : {users : Users} → System users → Form users × Option Request → System users
issue s (f, none) = record { form = f; waiting = s.waiting }
issue s (f, some r) = record { form = f; waiting = r ∷ s.waiting }

module _ (users : Users) where
  -- One event. A reply may come for any request on its way, in any order.
  pub data Step (s : System users) : System users → Type 0 where
    mode_set : (m : Mode) → Step s (record s { form = set_mode m s.form })
    navigated : (type : Option Text) → Step s (record s { form = navigate_auth type s.form })
    second : Step s (record s { form = tick_second s.form })
    signs_in : (i p : Text) → Step s (issue s (begin_sign_in i p s.form))
    -- the schema of the form accepts no empty address
    signs_up : (u e p : Text) → nonempty e ≡ true → Step s (issue s (begin_sign_up u e p s.form))
    verifies : (c : Text) → Step s (issue s (begin_verify_email c s.form))
    asks : Step s (issue s (begin_resend s.form))
    sign_in_reply :
        (i p : Text) (xs ys : List Request) (r : Either ApiError users.Profile)
        → s.waiting ≡ xs ++ signin i p ∷ ys
        → Step s (record { form = settle_sign_in users r s.form; waiting = xs ++ ys })
    sign_up_reply :
        (u e p : Text) (xs ys : List Request) (r : Either ApiError ℕ)
        → s.waiting ≡ xs ++ signup u e p ∷ ys
        → Step s (record { form = settle_sign_up e r s.form; waiting = xs ++ ys })
    verify_reply :
        (e c : Text) (xs ys : List Request) (r : Either ApiError users.Profile)
        → s.waiting ≡ xs ++ verify e c ∷ ys
        → Step s (record { form = settle_verify_email users r s.form; waiting = xs ++ ys })
    resend_reply :
        (e : Text) (xs ys : List Request) (r : Either ApiError ℕ)
        → s.waiting ≡ xs ++ resend e ∷ ys
        → Step s (record { form = settle_resend r s.form; waiting = xs ++ ys })

  pub data Reach (s : System users) : System users → Type 0 where
    here : Reach s s
    next : {t u : System users} → Reach s t → Step t u → Reach s u

-- The address of a request, if it has one, is not empty.
abbrev pub IsSent : Request → Type 0
IsSent (signin u p) = Unit {0}
IsSent (signup u e p) = nonempty e ≡ true
IsSent (verify e c) = nonempty e ≡ true
IsSent (resend e) = nonempty e ≡ true

pub record IsSafe {users : Users} (s : System users) : Type 0 where
  pub addressed : IsAddressed s.form.verify_email_state
  pub sent : All IsSent s.waiting
