-- ===== src/EditProfile/Examples.antt =====
-- Edits of a profile.
use touhou_cloud_music_thcdb.Common.{◌≡◌, refl, false, none, some, Text, codes}
use touhou_cloud_music_thcdb.EditProfile.{
  error_with, BioState, get_bio, is_bio_dirty, on_input, begin_save, settle_save, Ended, saved,
  failed,
}
use touhou_cloud_music_thcdb.EditProfile.Bio.{late_input-lost}

abbrev base : Text
base = codes "shrine maiden"

abbrev next : Text
next = codes "witch"

abbrev offline : Ended
offline = failed (error_with (codes "Offline"))

abbrev drafted : BioState
drafted = record { draft = some next; is_saving = false; error = none; saved_at = none }

late_input-lost_example :
    let typed = on_input base (codes "witches") (begin_save base drafted).0 in
    let done = settle_save (saved (codes "2026")) typed in
    (get_bio base typed ≡ codes "witches")
    × (is_bio_dirty done ≡ false)
    × (get_bio next done ≡ next)
late_input-lost_example =
    late_input-lost base next (codes "witches") (codes "2026") drafted refl refl (λ e. cc)
