-- ===== src/AuthForm/Interleaving.antt =====
-- What holds in every order of events and replies.
use touhou_cloud_music_thcdb.Common.{
  ℕ, ◌≡◌, refl, inl, inr, true, Option, none, some, Text, nonempty, List, [], ◌∷◌, ◌++◌, All, arith,
  codes, Option-cases,
}
use touhou_cloud_music_thcdb.Api.{Either, left, right, ApiError}
use touhou_cloud_music_thcdb.VerifyEmail.{
  Mode, truthy, VerifyEmailEvent, email_of, sync, resend_failed, resend_success, tick,
  save_verification_email, cooldown,
}
use touhou_cloud_music_thcdb.VerifyEmail.Laws.{IsAddressed, update-IsAddressed, IsSeedAddressed}
use touhou_cloud_music_thcdb.AuthForm.Interface.{Users}
use touhou_cloud_music_thcdb.AuthForm.{
  Form, Request, signin, signup, verify, resend, set_mode, navigate_auth, tick_second,
  begin_sign_in, begin_sign_up, begin_verify_email, begin_resend, settle_sign_in, settle_sign_up,
  settle_verify_email, settle_resend, update_state, auth, resolve_auth_form_mode,
}
use touhou_cloud_music_thcdb.AuthForm.System.{
  System, issue, Step, mode_set, navigated, second, signs_in, signs_up, verifies, asks,
  sign_in_reply, sign_up_reply, verify_reply, resend_reply, Reach, here, next, IsSent, IsSafe,
}

module _ {users : Users} where
  update_state-IsAddressed :
      (ev : VerifyEmailEvent) (f : Form users)
      → IsAddressed f.verify_email_state
      → IsSeedAddressed ev
      → IsAddressed (update_state ev f).verify_email_state
  update_state-IsAddressed ev f h k =
      update-IsAddressed f.verification_email f.verify_email_state ev h k

  set_mode-IsAddressed :
      (m : Mode) (f : Form users)
      → IsAddressed f.verify_email_state
      → IsAddressed (set_mode m f).verify_email_state
  unfolding set_mode
  set_mode-IsAddressed m f h e p =
      ground
        (arith, h e, update-IsAddressed f.verification_email f.verify_email_state (sync m) h tt e)

  navigate_auth-IsAddressed :
      (type : Option Text) (f : Form users)
      → IsAddressed f.verify_email_state
      → IsAddressed (navigate_auth type f).verify_email_state
  unfolding navigate_auth
  navigate_auth-IsAddressed type f h =
      set_mode-IsAddressed (resolve_auth_form_mode type) (record f { route = auth }) h

  tick_second-IsAddressed :
      (f : Form users)
      → IsAddressed f.verify_email_state
      → IsAddressed (tick_second f).verify_email_state
  unfolding tick_second
  tick_second-IsAddressed f h =
      update-IsAddressed f.verification_email f.verify_email_state tick h tt

  sign_up-IsAddressed :
      (x : Text) (r : Either ApiError ℕ) (f : Form users)
      → IsAddressed f.verify_email_state
      → nonempty x ≡ true
      → IsAddressed (settle_sign_up x r f).verify_email_state
  unfolding settle_sign_up
  sign_up-IsAddressed x (left er) f h k = h
  sign_up-IsAddressed x (right n) f h k =
      navigate_auth-IsAddressed (some (codes "verify_email"))
        (record f {
          verification_email = save_verification_email x;
          verify_email_state = cooldown x n;
        })
        (λ e p. ground arith)

  begin_resend-IsAddressed :
      (f : Form users)
      → IsAddressed f.verify_email_state
      → IsAddressed (begin_resend f).0.verify_email_state
  unfolding begin_resend
  begin_resend-IsAddressed f h e p = ground (arith, h e)

  settle_resend-IsAddressed :
      (r : Either ApiError ℕ) (f : Form users)
      → IsAddressed f.verify_email_state
      → IsAddressed (settle_resend r f).verify_email_state
  unfolding settle_resend
  settle_resend-IsAddressed (left x) f h =
      update-IsAddressed f.verification_email f.verify_email_state resend_failed h tt
  settle_resend-IsAddressed (right n) f h =
      update-IsAddressed f.verification_email f.verify_email_state (resend_success n) h tt

  issue-IsSafe :
      (s : System users) (r : Form users × Option Request)
      → IsSafe s
      → IsAddressed r.0.verify_email_state
      → ((q : Request) → r.1 ≡ some q → IsSent q)
      → IsSafe (issue s r)
  issue-IsSafe s (f, none) h a k = record { addressed = a; sent = h.sent }
  issue-IsSafe s (f, some q) h a k = record { addressed = a; sent = (k q refl, h.sent) }

  begin_verify_email-IsAddressed :
      (c : Text) (f : Form users)
      → IsAddressed f.verify_email_state
      → IsAddressed (begin_verify_email c f).0.verify_email_state
  unfolding begin_verify_email
  begin_verify_email-IsAddressed c f h e p = ground (arith, h e)

  begin_verify_email-sent :
      (c : Text) (f : Form users) (q : Request)
      → IsAddressed f.verify_email_state
      → (begin_verify_email c f).1 ≡ some q
      → IsSent q
  unfolding begin_verify_email
  begin_verify_email-sent c f q h p = elim (Option-cases (email_of f.verify_email_state)) [
    | inl missing ↦ absurd (ground arith)
    | inr (e, found) ↦ let same : q ≡ verify e c = ground arith in rw same (h e found)
  ]

  begin_resend-sent : (f : Form users) (q : Request) → (begin_resend f).1 ≡ some q → IsSent q
  unfolding begin_resend
  begin_resend-sent f q p = elim (Option-cases (truthy (email_of f.verify_email_state))) [
    | inl missing ↦ absurd (ground arith)
    | inr (e, found) ↦ let same : q ≡ resend e = ground arith in rw same (ground arith)
  ]

  settle_sign_in-state :
      (r : Either ApiError users.Profile) (f : Form users)
      → ((settle_sign_in users r f).verify_email_state ≡ f.verify_email_state)
        × ((settle_verify_email users r f).verify_email_state ≡ f.verify_email_state)
  unfolding settle_sign_in settle_verify_email
  settle_sign_in-state (left x) f = (refl, refl)
  settle_sign_in-state (right x) f = (refl, refl)

All-remove :
    (xs ys : List Request) (r : Request)
    → All IsSent (xs ++ r ∷ ys)
    → All IsSent (xs ++ ys) × IsSent r
All-remove [] ys r h = (h.1, h.0)
All-remove (x ∷ xs) ys r h = let (k, p) = All-remove xs ys r h.1 in ((h.0, k), p)

module _ {users : Users} where
  Step-IsSafe : {s t : System users} → Step users s t → IsSafe s → IsSafe t
  unfolding begin_sign_in begin_sign_up
  Step-IsSafe {s} (mode_set m) h = record {
    addressed = set_mode-IsAddressed m s.form h.addressed;
    sent = h.sent;
  }
  Step-IsSafe {s} (navigated type) h = record {
    addressed = navigate_auth-IsAddressed type s.form h.addressed;
    sent = h.sent;
  }
  Step-IsSafe {s} second h = record {
    addressed = tick_second-IsAddressed s.form h.addressed;
    sent = h.sent;
  }
  Step-IsSafe {s} (signs_in i p) h = record { addressed = h.addressed; sent = (tt, h.sent) }
  Step-IsSafe {s} (signs_up u e p k) h = record { addressed = h.addressed; sent = (k, h.sent) }
  Step-IsSafe {s} (verifies c) h =
      issue-IsSafe s _ h (begin_verify_email-IsAddressed c s.form h.addressed)
        (λ q p. begin_verify_email-sent c s.form q h.addressed p)
  Step-IsSafe {s} asks h =
      issue-IsSafe s _ h (begin_resend-IsAddressed s.form h.addressed) (begin_resend-sent s.form)
  Step-IsSafe {s} (sign_in_reply i p xs ys r w) h = record {
    addressed = rw (settle_sign_in-state r s.form).0 h.addressed;
    sent = (All-remove xs ys (signin i p) (rw w at h.sent)).0;
  }
  Step-IsSafe {s} (sign_up_reply u e p xs ys r w) h =
      let (rest, k) = All-remove xs ys (signup u e p) (rw w at h.sent) in
      record { addressed = sign_up-IsAddressed e r s.form h.addressed k; sent = rest }
  Step-IsSafe {s} (verify_reply e c xs ys r w) h = record {
    addressed = rw (settle_sign_in-state r s.form).1 h.addressed;
    sent = (All-remove xs ys (verify e c) (rw w at h.sent)).0;
  }
  Step-IsSafe {s} (resend_reply e xs ys r w) h = record {
    addressed = settle_resend-IsAddressed r s.form h.addressed;
    sent = (All-remove xs ys (resend e) (rw w at h.sent)).0;
  }

  -- Whatever the order of events and replies, from a form whose address, if any, is not empty and
  -- whose requests on their way have none that is: the same holds, so no request for a code or a
  -- verification ever goes to an empty address.
  pub Reach-IsSafe : {s t : System users} → IsSafe s → Reach users s t → IsSafe t
  Reach-IsSafe h here = h
  Reach-IsSafe h (next r st) = Step-IsSafe st (Reach-IsSafe h r)
