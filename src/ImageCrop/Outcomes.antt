-- ===== src/ImageCrop/Outcomes.antt =====
-- How choosing a file and saving end.
use touhou_cloud_music_thcdb.Common.{
  ℕ, suc, ◌≡◌, refl, Bool, true, false, not, ◌&&◌, Option, none, some, is_some, Text, codes, [],
  ◌∷◌, ◌++◌, leb, ltb, arith, if◌then◌else◌,
}
use touhou_cloud_music_thcdb.ImageUpload.{remove, Thrown}
use touhou_cloud_music_thcdb.ImageCrop.Dialog.{
  Dialog, ImageFile, ImageFileType, FileSizeRange, revoke_last, clear_file_state, clear_local_state,
  sync_open, run_effect, show_preview, run_preview, take_file, on_file_change, validate_image_file,
}
use touhou_cloud_music_thcdb.ImageCrop.Saving.{
  OutputSize, Request, to_canvas, to_blob, upload, CanvasReply, canvas_thrown, not_canvas, canvas,
  BlobReply, blob_thrown, no_blob, blob, begin_save, extension, settle_canvas, settle_blob,
  settle_upload,
}
use touhou_cloud_music_thcdb.ImageCrop.Urls.{IsClean}

-- The replies to a save, with nothing else in between.
pub record Replies : Type 0 where
  pub has_selection : Bool
  pub output_size : Option OutputSize
  pub canvas_reply : CanvasReply
  pub blob_reply : BlobReply
  pub upload_result : Option Thrown

abbrev pub is_canvas : CanvasReply → Bool
is_canvas canvas_thrown = false
is_canvas not_canvas = false
is_canvas canvas = true

abbrev pub is_within : FileSizeRange → BlobReply → Bool
is_within range blob_thrown = false
is_within range no_blob = false
is_within range (blob size mime) = leb size range.max

-- Everything that a save needs.
abbrev pub saves : FileSizeRange → Replies → Dialog → Bool
saves range r s =
    is_some s.cropper_root
    && r.has_selection
    && is_some r.output_size
    && is_canvas r.canvas_reply
    && is_within range r.blob_reply
    && not (is_some r.upload_result)

module _ (show : ℕ → Text) (range : FileSizeRange) where
  abbrev finish : Replies → Dialog × Request → Dialog
  finish r (s, upload file) = settle_upload r.upload_result s
  finish r (s, request) = s

  abbrev on_blob : Replies → Dialog × Request → Dialog
  on_blob r (s, to_blob kind quality) = finish r (settle_blob show kind range r.blob_reply s)
  on_blob r (s, request) = s

  abbrev on_canvas : Replies → Dialog × Request → Dialog
  on_canvas r (s, to_canvas size) = on_blob r (settle_canvas r.canvas_reply s)
  on_canvas r (s, request) = s

  -- `handleSave` with these replies.
  unfoldable pub handle_save : Replies → Dialog → Dialog
  unfolding begin_save settle_canvas settle_blob settle_upload
  handle_save r s = on_canvas r (begin_save r.has_selection r.output_size s)

  -- A save in an open dialog, with nothing in between, ends in one of two ways. If there are a
  -- cropper with a selection, a size for it, a canvas and a blob that is not larger than allowed,
  -- and the upload succeeds, the dialog is closed without an error, a preview or a file; in every
  -- other case it stays open with an error, and with its preview and its file.
  pub handle_save_lem :
      (r : Replies) (s : Dialog)
      → s.is_open ≡ true
      → let t = handle_save r s in
        (t.is_open ≡ not (saves range r s))
        × (is_some t.local_error ≡ not (saves range r s))
        × (t.preview_src ≡ (if saves range r s then none else s.preview_src))
        × (t.is_file_selected ≡ (if saves range r s then false else s.is_file_selected))
  unfolding handle_save sync_open clear_local_state clear_file_state revoke_last
  handle_save_lem r s h = ground arith

  abbrev IsAccepted : ImageFile → Type 0
  IsAccepted file = validate_image_file show file range ≡ none

  choose-eq-take :
      (file : ImageFile) (s : Dialog)
      → IsAccepted file
      → on_file_change show range (some file) s
        ≡ take_file show file (record s { local_error = none })
  unfolding on_file_change
  choose-eq-take file s h = rw (h, on_file_change) refl

  -- The blob is not larger than allowed, so its upload is asked for, in a dialog whose one URL
  -- alive is the last; while it is on its way a new file is accepted, which the dialog then holds,
  -- with a URL of its own. When the upload succeeds, the dialog is closed with no file, no preview
  -- and no URL left.
  pub late_upload :
      (kind : ImageFileType) (size : ℕ) (mime : Text) (file : ImageFile) (s : Dialog)
      → IsClean s
      → ltb range.max size ≡ false
      → validate_image_file show file range ≡ none
      → let (waiting, request) = settle_blob show kind range (blob size mime) s in
        let held = on_file_change show range (some file) waiting in
        let t = settle_upload none held in
        (request
          ≡ upload (record { size = size; name = codes "crop." ++ extension kind; mime = mime }))
        × (held.is_file_selected ≡ true)
        × (held.file_name ≡ file.name)
        × (held.live ≡ s.made ∷ [])
        × (t.is_open ≡ false)
        × (t.is_file_selected ≡ false)
        × (t.preview_src ≡ none)
        × (t.live ≡ [])
  unfolding settle_blob settle_upload sync_open clear_local_state clear_file_state revoke_last
      take_file remove
  late_upload kind size mime file s c small h = rw (small, choose-eq-take file s h) (ground arith)

  -- Two files are accepted one after the other before either preview is shown: the URL of the second
  -- is shown in the end, and it is the only one alive.
  pub last_choice-shown :
      (first second : ImageFile) (s : Dialog)
      → IsClean s
      → s.previews ≡ []
      → validate_image_file show first range ≡ none
      → validate_image_file show second range ≡ none
      → let chosen =
          on_file_change show range (some second) (on_file_change show range (some first) s) in
        let t = run_preview (run_preview chosen) in
        ((run_preview chosen).preview_src ≡ none)
        × (t.preview_src ≡ some (suc s.made))
        × (t.file_name ≡ second.name)
        × (t.live ≡ suc s.made ∷ [])
  unfolding take_file revoke_last run_preview show_preview run_effect remove
  last_choice-shown first second s c empty h k =
      rw
        (
          choose-eq-take first s h,
          choose-eq-take second (take_file show first (record s { local_error = none })) k,
        )
        (ground arith)
