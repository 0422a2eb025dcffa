-- ===== src/ImageCrop/Saving.antt =====
-- `getCroppedFile` and `handleSave` of web/frontend/src/component/ImageCropDialog/index.tsx, split
-- where they wait for the canvas, for its blob and for the upload.
use touhou_cloud_music_thcdb.Common.{
  ℕ, Bool, false, Option, none, some, Text, codes, nonempty, ◌++◌, ltb, if◌then◌else◌,
}
use touhou_cloud_music_thcdb.ImageUpload.{Thrown, error_with, other}
use touhou_cloud_music_thcdb.ImageCrop.Dialog.{
  Dialog, ImageFileType, image_png, image_jpeg, FileSizeRange, sync_open, format_bytes,
}

pub record OutputSize : Type 0 where
  pub width : ℕ
  pub height : ℕ

pub record CroppedFile : Type 0 where
  pub size : ℕ
  pub name : Text
  pub mime : Text

-- What is asked for next: the canvas in a size, its blob in a type, with the quality of JPEG in
-- percent, the upload; or nothing more.
pub data Request : Type 0 where
  finished : Request
  to_canvas : OutputSize → Request
  to_blob : ImageFileType → Option ℕ → Request
  upload : CroppedFile → Request

-- What the wait for the canvas gives.
pub data CanvasReply : Type 0 where
  canvas_thrown : CanvasReply
  not_canvas : CanvasReply
  canvas : CanvasReply

-- What the wait for the blob gives: the blob with its size and its type, `null`, or an error.
pub data BlobReply : Type 0 where
  blob_thrown : BlobReply
  no_blob : BlobReply
  blob : ℕ → Text → BlobReply

abbrev pub not_ready : Text
not_ready = codes "Cropper is not ready yet."

abbrev pub crop_failed : Text
crop_failed = codes "Crop failed."

abbrev pub unsatisfied : Text
unsatisfied = codes "Selected crop cannot satisfy the required dimensions. Adjust the crop area."

abbrev pub upload_failed : Text
upload_failed = codes "Upload failed."

-- `setState("localError", cropResult.message)`
abbrev pub fail : Text → Dialog → Dialog × Request
fail message s = (record s { local_error = some message }, finished)

-- Up to the canvas. The arguments are whether the cropper has a selection, and the size that it gives.
unfoldable pub begin_save : Bool → Option OutputSize → Dialog → Dialog × Request
begin_save has_selection output_size s =
    let cleared : Dialog = record s { local_error = none } in
    elim s.cropper_root [
      | none ↦ fail not_ready cleared
      | some host ↦
          if has_selection
          then (elim output_size [
            | none ↦ fail unsatisfied cleared
            | some size ↦ (cleared, to_canvas size)
          ])
          else fail not_ready cleared
    ]

abbrev pub blob_request : ImageFileType → Request
blob_request image_png = to_blob image_png none
blob_request image_jpeg = to_blob image_jpeg (some 92)

unfoldable pub settle_canvas : CanvasReply → Dialog → Dialog × Request
settle_canvas canvas_thrown s = fail crop_failed s
settle_canvas not_canvas s = fail crop_failed s
settle_canvas canvas s = (s, blob_request s.input_file_type)

abbrev pub extension : ImageFileType → Text
extension image_png = codes "png"
extension image_jpeg = codes "jpg"

module _ (show : ℕ → Text) where
  -- With the type that the blob was asked in.
  unfoldable pub settle_blob : ImageFileType → FileSizeRange → BlobReply → Dialog → Dialog × Request
  unfolding format_bytes
  settle_blob kind range blob_thrown s = fail crop_failed s
  settle_blob kind range no_blob s = fail crop_failed s
  settle_blob kind range (blob size mime) s =
      if ltb range.max size
      then fail
          (codes "Cropped image is too large ("
            ++ format_bytes show size
            ++ codes "). Try a smaller crop or use a smaller source image.")
          s
      else (s, upload (record { size = size; name = codes "crop." ++ extension kind; mime = mime }))

unfoldable pub save_message : Thrown → Text
save_message (error_with message) = if nonempty message then message else upload_failed
save_message other = upload_failed

-- The end of the upload: `none` when it succeeded.
unfoldable pub settle_upload : Option Thrown → Dialog → Dialog
unfolding sync_open save_message
settle_upload none s = sync_open false s
settle_upload (some thrown) s = record s { local_error = some (save_message thrown) }
