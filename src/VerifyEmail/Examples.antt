-- ===== src/VerifyEmail/Examples.antt =====
-- Runs of the verification state machine.
use touhou_cloud_music_thcdb.Common.{◌≡◌, refl, none, some, Text, codes, text_eq, trim}
use touhou_cloud_music_thcdb.VerifyEmail.{
  ready, cooldown, sync, verify_email, update_verify_email_state, save_verification_email,
}

abbrev reimu : Text
reimu = codes "reimu@example.org"

saved : save_verification_email (codes "  reimu@example.org ") ≡ some reimu
unfolding save_verification_email trim
saved = refl

blank : save_verification_email (codes "  ") ≡ none
unfolding save_verification_email trim
blank = refl

stale_address :
    update_verify_email_state (some reimu) (cooldown (codes "m@x.org") 9) (sync verify_email)
    ≡ ready reimu
unfolding update_verify_email_state text_eq
stale_address = refl
