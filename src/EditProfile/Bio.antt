-- ===== src/EditProfile/Bio.antt =====
-- What becomes of a draft of the biography.
use touhou_cloud_music_thcdb.Common.{◌≡◌, ◌≢◌, false, Option, none, some, Text, text_eq_iff, arith}
use touhou_cloud_music_thcdb.EditProfile.{
  message_or, BioState, get_bio, is_bio_dirty, on_input, begin_save, settle_save, Ended, saved,
  failed, save_failed,
}

abbrev pub draft_after : Ended → Text → Option Text
draft_after (saved time) next = none
draft_after (failed t) next = some next

abbrev pub error_after : Ended → Option Text
error_after (saved time) = none
error_after (failed t) = some (message_or save_failed t)

-- A text that is typed and differs from the stored one is shown, saved as it is, and not saved
-- twice at once; a success leaves no draft, a failure keeps the draft and shows why.
pub typed-saved :
    (base next : Text) (s : BioState) (r : Ended)
    → next ≢ base
    → s.is_saving ≡ false
    → let typed = on_input base next s in
      let (saving, request) = begin_save base typed in
      let done = settle_save r saving in
      (get_bio base typed ≡ next)
      × (request ≡ some next)
      × ((begin_save base saving).1 ≡ none)
      × (done.draft ≡ draft_after r next)
      × (done.error ≡ error_after r)
      × (done.is_saving ≡ false)
unfolding on_input begin_save settle_save get_bio is_bio_dirty
typed-saved base next s (saved time) d h = ground (arith, text_eq_iff next base, d)
typed-saved base next s (failed t) d h = ground (arith, text_eq_iff next base, d)

-- A text that is typed while another is being saved is lost when that is saved: no draft is left,
-- and the stored text is shown.
pub late_input-lost :
    (base first late time : Text) (s : BioState)
    → s.draft ≡ some first
    → s.is_saving ≡ false
    → late ≢ base
    → let typed = on_input base late (begin_save base s).0 in
      let done = settle_save (saved time) typed in
      (get_bio base typed ≡ late) × (is_bio_dirty done ≡ false) × (get_bio first done ≡ first)
unfolding on_input begin_save settle_save get_bio is_bio_dirty
late_input-lost base first late time s d h n = ground (arith, text_eq_iff late base, n)
