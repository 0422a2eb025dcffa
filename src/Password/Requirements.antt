-- ===== src/Password/Requirements.antt =====
-- The rows of the field and the schema.
use touhou_cloud_music_thcdb.Common.{
  ℕ, ◌≡◌, refl, ◌↔◌, Bool, true, false, ◌&&◌, List, [], ◌∷◌, ◌++◌, Text, codes, text_eq,
  text_eq_iff, arith,
}
use touhou_cloud_music_thcdb.Password.{
  Action, password_regex, whitespace_regex, has_whitespace_or_control, password_actions, length_ok,
  no_whitespace_ok, allowed_chars_ok, strength_ok, reset_password_actions,
}

same_whitespace : (v : Text) → has_whitespace_or_control v ≡ whitespace_regex v
unfolding has_whitespace_or_control whitespace_regex
same_whitespace [] = refl
same_whitespace (c ∷ s) = ground (arith, same_whitespace s)

-- Every action passes.
abbrev pub all_pass : List Action → Bool
all_pass [] = true
all_pass (a ∷ actions) = a.passes && all_pass actions

all_pass-append : (xs ys : List Action) → all_pass (xs ++ ys) ≡ (all_pass xs && all_pass ys)
all_pass-append [] ys = refl
all_pass-append (x ∷ xs) ys = ground (arith, all_pass-append xs ys)

-- Every row of the field is ticked.
abbrev pub all_ok : (Text → ℕ) → Text → Bool
all_ok score v = length_ok v && no_whitespace_ok v && allowed_chars_ok v && strength_ok score v

split : (b : Bool) (s t : Text) → ((b && (text_eq s t && true)) ≡ true) ↔ ((b ≡ true) × (s ≡ t))
split true s t = ground (arith, text_eq_iff s t)
split false s t = ground arith

module _ (score : Text → ℕ) where
  all_pass-all_ok : (v : Text) → all_pass (password_actions score v) ≡ all_ok score v
  unfolding password_actions length_ok no_whitespace_ok allowed_chars_ok strength_ok password_regex
  all_pass-all_ok [] = refl
  all_pass-all_ok (c ∷ s) = ground (arith, same_whitespace (c ∷ s))

  reset_passes :
      (password repeated_password : Text)
      → (all_pass (reset_password_actions score password repeated_password) ≡ true)
        ↔ ((all_ok score password ≡ true) × (password ≡ repeated_password))
  unfolding reset_password_actions
  reset_passes password repeated_password =
      let appended = all_pass-append (password_actions score password) (
        record { passes = text_eq password repeated_password; message = codes "Password mismatch" }
        ∷ []) in
      rw (appended, all_pass-all_ok password)
        (split (all_ok score password) password repeated_password)

  -- If the run of a schema gives no message exactly when every action passes: the schema accepts a
  -- new password exactly when the field ticks all of its four requirements and the repeated
  -- password is the same.
  pub reset_password-rows :
      (run : List Action → List Text)
      (run_iff : (actions : List Action) → (run actions ≡ []) ↔ (all_pass actions ≡ true))
      (password repeated_password : Text)
      → (run (reset_password_actions score password repeated_password) ≡ [])
        ↔ ((all_ok score password ≡ true) × (password ≡ repeated_password))
  reset_password-rows run run_iff password repeated_password =
      let checked = run_iff (reset_password_actions score password repeated_password) in
      let passing = reset_passes password repeated_password in
      (λ h. passing.0 (checked.0 h), λ h. checked.1 (passing.1 h))
