-- ===== src/EditProfile/Image.antt =====
-- Uploads of the avatar and of the banner.
use touhou_cloud_music_thcdb.Common.{◌≡◌, true, false, Option, none, some, Text, arith}
use touhou_cloud_music_thcdb.EditProfile.{
  Thrown, ImageState, message_or, begin_upload, settle_upload, upload_failed,
}

abbrev pub message_of : Option Thrown → Option Text
message_of none = none
message_of (some t) = some (message_or upload_failed t)

-- When no upload is under way, one starts, a second does not start before its end, and at its end the
-- error that is shown is the one that is thrown on, if any, and a new upload may start.
pub upload_cycle :
    (s : ImageState) (r : Option Thrown)
    → s.is_uploading ≡ false
    → let (sent, started) = begin_upload s in
      let (done, thrown) = settle_upload r sent in
      (started ≡ true)
      × ((begin_upload sent).1 ≡ false)
      × (done.image_error ≡ message_of r)
      × (thrown ≡ message_of r)
      × ((begin_upload done).1 ≡ true)
unfolding begin_upload settle_upload
upload_cycle s none h = ground arith
upload_cycle s (some t) h = ground arith
