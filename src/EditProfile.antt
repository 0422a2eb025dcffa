-- ===== src/EditProfile.antt =====
-- The editing of a profile: web/frontend/src/view/user/edit_profile/store.ts. A method that awaits
-- is its part before the request and its part after the reply. The stored biography, which the page
-- reads again each time, is an argument.
pub mod Bio
pub mod Image
mod Examples
use touhou_cloud_music_thcdb.Common.{
  Bool, true, false, not, ◌||◌, Option, none, some, is_some, or_else, Text, text_eq, nonempty,
  codes, if◌then◌else◌,
}

-- What a request may throw: an `Error` with its message, or any other value.
pub data Thrown : Type 0 where
  error_with : Text → Thrown
  other : Thrown

abbrev pub message_or : Text → Thrown → Text
message_or default (error_with message) = if nonempty message then message else default
message_or default other = default

pub record BioState : Type 0 where
  pub draft : Option Text
  pub is_saving : Bool
  pub error : Option Text
  pub saved_at : Option Text

unfoldable pub new_bio : BioState
new_bio = record { draft = none; is_saving = false; error = none; saved_at = none }

unfoldable pub get_bio : Text → BioState → Text
get_bio base s = or_else s.draft base

unfoldable pub is_bio_dirty : BioState → Bool
is_bio_dirty s = is_some s.draft

unfoldable pub on_input : Text → Text → BioState → BioState
on_input base next s = record s {
  error = none;
  draft = if text_eq next base then none else some next;
}

unfoldable pub on_reset : BioState → BioState
on_reset s = record s { error = none; draft = none }

-- `onSave` up to the request, with the text that it saves.
unfoldable pub begin_save : Text → BioState → BioState × Option Text
unfolding get_bio is_bio_dirty
begin_save base s =
    if not (is_bio_dirty s) || s.is_saving
    then (s, none)
    else (record s { error = none; is_saving = true }, some (get_bio base s))

abbrev pub save_failed : Text
save_failed = codes "Save failed."

-- How a request ends: at a time, or by what it threw.
pub data Ended : Type 0 where
  saved : Text → Ended
  failed : Thrown → Ended

unfoldable pub settle_save : Ended → BioState → BioState
settle_save (saved time) s = record s { draft = none; saved_at = some time; is_saving = false }
settle_save (failed t) s = record s { error = some (message_or save_failed t); is_saving = false }

-- `createImageStore`
pub record ImageState : Type 0 where
  pub is_open : Bool
  pub is_uploading : Bool
  pub image_error : Option Text

unfoldable pub new_image : ImageState
new_image = record { is_open = false; is_uploading = false; image_error = none }

unfoldable pub set_image_open : Bool → ImageState → ImageState
set_image_open next s = record s { is_open = next }

-- `onUpload` up to the request; whether there is one.
unfoldable pub begin_upload : ImageState → ImageState × Bool
begin_upload s =
    if s.is_uploading
    then (s, false)
    else (record s { image_error = none; is_uploading = true }, true)

abbrev pub upload_failed : Text
upload_failed = codes "Upload failed."

-- Its end, with the message of the error that it throws on.
unfoldable pub settle_upload : Option Thrown → ImageState → ImageState × Option Text
settle_upload none s = (record s { is_uploading = false }, none)
settle_upload (some t) s = (
  record s { image_error = some (message_or upload_failed t); is_uploading = false },
  some (message_or upload_failed t),
)
