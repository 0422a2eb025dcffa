-- ===== src/ImageUpload/Submit.antt =====
-- When a file is uploaded, and what the end of the upload leaves.
use touhou_cloud_music_thcdb.Common.{◌≡◌, ◌↔◌, false, Option, none, some, Text, arith}
use touhou_cloud_music_thcdb.ImageUpload.{
  Store, Thrown, begin_submit, settle_submit, on_draft_save, set_draft, revoke_draft_preview_url,
  get_submit_error_message,
}

abbrev pub error_of : Option Thrown → Option Text
error_of none = none
error_of (some t) = some (get_submit_error_message t)

module _ {ℓ} {File : Type ℓ} where
  -- A file is uploaded exactly when it is the draft and no upload is under way.
  pub begin_submit-request_iff :
      (s : Store File) (file : File)
      → ((begin_submit s).1 ≡ some file) ↔ ((s.draft_file ≡ some file) × (s.is_uploading ≡ false))
  unfolding begin_submit
  begin_submit-request_iff s file = ground arith

  -- A draft that is replaced while its upload is under way does not start a second upload, and
  -- after the end of the first, with an error or without, the new draft is the one that would be
  -- uploaded and the error that is shown is the one of the upload.
  pub submit_cycle :
      (s : Store File) (old new : File) (r : Option Thrown)
      → s.draft_file ≡ some old
      → s.is_uploading ≡ false
      → let replaced = on_draft_save new (begin_submit s).0 in
        let done = settle_submit r replaced in
        ((begin_submit replaced).1 ≡ none)
        × ((begin_submit done).1 ≡ some new)
        × (done.submit_error ≡ error_of r)
  unfolding begin_submit on_draft_save set_draft revoke_draft_preview_url settle_submit
  submit_cycle s old new none h k = ground arith
  submit_cycle s old new (some t) h k = ground arith
