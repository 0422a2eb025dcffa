-- ===== src/Password.antt =====
-- Passwords: the schema of web/frontend/src/domain/auth/schema.ts and the requirements that
-- web/frontend/src/view/auth/component/PasswordField.tsx shows, with constant/server.ts and
-- domain/auth/password_strength.ts. The score of a password and the run of a schema's actions are
-- third-party code: `score` and `run`.
pub mod Requirements
mod Examples
use touhou_cloud_music_thcdb.Common.{
  ℕ, Bool, true, false, not, ◌&&◌, ◌||◌, List, [], ◌∷◌, ◌++◌, ◌==◌, Text, codes, text_eq, nonempty,
  length, leb, has, is_space, if◌then◌else◌,
}

abbrev pub user_password_min_length : ℕ
user_password_min_length = 8

abbrev pub user_password_max_length : ℕ
user_password_max_length = 64

-- The characters of `USER_PASSWORD_REGEX_STR`.
unfoldable pub allowed : ℕ → Bool
allowed c =
    leb 65 c && leb c 90
    || leb 97 c && leb c 122
    || leb 48 c && leb c 57
    || has (codes "`~!@#$%^&*()-_=+") c

unfoldable pub all_allowed : Text → Bool
unfolding allowed
all_allowed [] = true
all_allowed (c ∷ s) = allowed c && all_allowed s

-- `PASSWORD_REGEX.test`
unfoldable pub password_regex : Text → Bool
password_regex s =
    all_allowed s
    && leb user_password_min_length (length s)
    && leb (length s) user_password_max_length

-- `PASSWORD_WHITESPACE_REGEX.test`
unfoldable pub whitespace_regex : Text → Bool
whitespace_regex [] = false
whitespace_regex (c ∷ s) = is_space c || leb c 31 || c == 127 || whitespace_regex s

-- The loop of `hasWhitespaceOrControl`. A character beyond the basic plane is neither, and neither
-- are its two code units.
unfoldable pub has_whitespace_or_control : Text → Bool
has_whitespace_or_control [] = false
has_whitespace_or_control (c ∷ s) =
    let rest = has_whitespace_or_control s in
    if is_space c then true else if leb c 31 || c == 127 then true else rest

abbrev pub password_strength_min_score : ℕ
password_strength_min_score = 3

-- An action of a schema: whether the value passes it, and its message.
pub record Action : Type 0 where
  pub passes : Bool
  pub message : Text

-- The rows of the field, of the text in it.
unfoldable pub length_ok : Text → Bool
length_ok v = leb user_password_min_length (length v) && leb (length v) user_password_max_length

unfoldable pub no_whitespace_ok : Text → Bool
no_whitespace_ok v = not (has_whitespace_or_control v)

unfoldable pub allowed_chars_ok : Text → Bool
allowed_chars_ok v = all_allowed v

module _ (score : Text → ℕ) where
  unfoldable pub is_password_strong_enough : Text → Bool
  is_password_strong_enough password = leb password_strength_min_score (score password)

  unfoldable pub password_actions : Text → List Action
  password_actions input =
      record {
        passes = leb user_password_min_length (length input);
        message = codes "Password must be at least 8 characters";
      }
      ∷ record {
        passes = leb (length input) user_password_max_length;
        message = codes "Password must be at most 64 characters";
      }
      ∷ record {
        passes = not (whitespace_regex input);
        message = codes "Password contains invalid or whitespace characters";
      }
      ∷ record {
        passes = password_regex input;
        message = codes "Password contains invalid or whitespace characters";
      }
      ∷ record { passes = is_password_strong_enough input; message = codes "Password too weak" }
      ∷ []

  unfoldable pub strength_ok : Text → Bool
  strength_ok v = if not (nonempty v) then false else is_password_strong_enough v

-- What a row of the field looks like.
pub data RowState : Type 0 where
  idle ok bad : RowState

unfoldable pub row_state : Text → Bool → RowState
row_state value row_ok = if not (nonempty value) then idle else if row_ok then ok else bad

-- `VerificationCode`
abbrev pub digits_only : Text → Bool
digits_only [] = true
digits_only (c ∷ s) = leb 48 c && leb c 57 && digits_only s

unfoldable pub verification_code_actions : Text → List Action
verification_code_actions input =
    record { passes = leb 6 (length input); message = codes "Verification code must be 6 digits" }
    ∷ record { passes = leb (length input) 6; message = codes "Verification code must be 6 digits" }
    ∷ record {
      passes = digits_only input && length input == 6;
      message = codes "Invalid verification code";
    }
    ∷ []

-- `ResetPassword`: the check of the repeated password comes after the entries.
unfoldable pub reset_password_actions : (Text → ℕ) → Text → Text → List Action
reset_password_actions score password repeated_password =
    password_actions score password
    ++ (record { passes = text_eq password repeated_password; message = codes "Password mismatch" }
        ∷ [])
