-- ===== src/ImageCrop/Examples.antt =====
-- Selections in whole numbers, sums that are rounded, and a dialog that is opened.
use touhou_cloud_music_thcdb.Common.{
  ℕ, ◌+◌, ◌++◌, ◌*◌, ◌/◌, ◌≡◌, refl, true, false, none, some, is_some, Text, codes, [], ◌∷◌, ltb,
  inr, arith, if◌then◌else◌, text_eq,
}
use touhou_cloud_music_thcdb.ImageUpload.{error_with}
use touhou_cloud_music_thcdb.ImageCrop.Numbers.{
  Number, IsOrdered, Whole, whole_number, Whole-IsOrdered, combined,
}
use touhou_cloud_music_thcdb.ImageCrop.Geometry.{Rect, clamp_rect_to_bounds, is_unusable}
use touhou_cloud_music_thcdb.ImageCrop.Bounds.{HasRoom, IsExact, IsExactRatio, IsInside}
use touhou_cloud_music_thcdb.ImageCrop.Clamp.{clamp_rect-IsInside}
use touhou_cloud_music_thcdb.ImageCrop.Selection.{Handled, replaced, on_change}
use touhou_cloud_music_thcdb.ImageCrop.Kept.{change_to, selected, on_change-IsInside}
use touhou_cloud_music_thcdb.ImageCrop.Rounding.{clamp_rect-rounded}
use touhou_cloud_music_thcdb.ImageCrop.Dialog.{
  image_png, Dialog, ImageFile, FileSizeRange, default_file_size_range, new_dialog, sync_open,
  on_cleanup, on_file_change, validate_image_file,
}
use touhou_cloud_music_thcdb.ImageCrop.Saving.{
  canvas, blob, upload, extension, settle_blob, settle_upload,
}
use touhou_cloud_music_thcdb.ImageCrop.Urls.{
  opened, chosen, mounted, preview_turn, checked, after_all, IsClean, reachable-IsClean,
}
use touhou_cloud_music_thcdb.ImageCrop.Outcomes.{Replies, handle_save, handle_save_lem, late_upload}

abbrev rect : ℕ → ℕ → ℕ → ℕ → Rect Whole
rect x y width height = record { x = some x; y = some y; width = some width; height = some height }

abbrev image_bounds : Rect Whole
image_bounds = rect 1 2 10 5

has_room : (start extent : ℕ) → HasRoom (some start) (some extent)
has_room start extent none f h = ground arith
has_room start extent (some taken) f h = ground arith

square : IsExactRatio image_bounds (some 1)
square = ground arith

abbrev exact : IsExact image_bounds (some (some 1))
exact = record { across = has_room 1 10; down = has_room 2 5; shape = square }

-- A selection that is too wide is made a square and put into the image.
wide_is_replaced :
    on_change 2 false (change_to (rect 20 0 30 3)) (some image_bounds) (some (some 1))
    ≡ some (replaced (rect 6 2 5 5))
unfolding on_change clamp_rect_to_bounds
wide_is_replaced = refl

on_change-IsInside_example :
    (h : Handled Whole) × (on_change 2 false
        (change_to (rect 20 0 30 3))
        (some image_bounds)
        (some (some 1))
      ≡ some h)
    × IsInside image_bounds (selected (rect 20 0 30 3) h)
    × (is_unusable (selected (rect 20 0 30 3) h) ≡ false)
unfolding is_unusable
on_change-IsInside_example =
    on_change-IsInside Whole-IsOrdered 0 (rect 20 0 30 3) image_bounds (some (some 1)) refl refl
      exact

clamp_rect-IsInside_example :
    (next : Rect Whole) × (clamp_rect_to_bounds 2 (rect 20 0 0 3) image_bounds (some (some 1))
      ≡ some next)
    × (is_unusable next ≡ false)
    × IsInside image_bounds next
    × (is_unusable (rect 20 0 0 3) ≡ false
        → IsInside image_bounds (rect 20 0 0 3)
        → next ≡ rect 20 0 0 3)
unfolding is_unusable
clamp_rect-IsInside_example =
    clamp_rect-IsInside Whole-IsOrdered 0 (rect 20 0 0 3) image_bounds (some (some 1)) refl exact

-- Numbers above 4 that are rounded down to even ones.
abbrev rounded : ℕ → ℕ
rounded a = if ltb a 4 then a else 2 * (a / 2)

abbrev rounding_number : Number Whole
rounding_number = record whole_number { add = combined λ a b. some (rounded (a + b)) }

rounding-IsOrdered : IsOrdered Whole ⦃n = rounding_number⦄
rounding-IsOrdered = ground arith

clamp_rect-rounded_example :
    (next : Rect Whole) × (clamp_rect_to_bounds ⦃n = rounding_number⦄ 1
        (rect 90 1 4 2)
        (rect 3 1 2 2)
        none
      ≡ some next)
    × (next.x ≡ some 90)
    × (next.width ≡ some 2)
unfolding is_unusable
clamp_rect-rounded_example =
    clamp_rect-rounded ⦃n = rounding_number⦄ rounding-IsOrdered 0 (rect 90 1 4 2) (rect 3 1 2 2)
      refl refl refl refl refl

abbrev show : ℕ → Text
show n = (48 + n) ∷ []

abbrev png_file : Text → ImageFile
png_file name = record { name = name; size = 20000; mime = codes "image/png" }

abbrev any_size : FileSizeRange
any_size = default_file_size_range

abbrev with_preview : Dialog
with_preview =
    after_all show
      (opened true
        ∷ chosen any_size (some (png_file (codes "a")))
        ∷ preview_turn
        ∷ mounted (some 7)
        ∷ checked (some true)
        ∷ [])
      new_dialog

reachable-IsClean_example :
    IsClean with_preview
    × ((sync_open false with_preview).live ≡ [])
    × ((sync_open false with_preview).preview_src ≡ none)
    × ((on_cleanup with_preview).live ≡ [])
reachable-IsClean_example = reachable-IsClean show (
    opened true
    ∷ chosen any_size (some (png_file (codes "a")))
    ∷ preview_turn
    ∷ mounted (some 7)
    ∷ checked (some true)
    ∷ [])

-- The dialog with the first file shown and the cropper there.
abbrev cropping : Dialog
cropping = record new_dialog {
  is_open = true;
  preview_src = some 0;
  is_file_selected = true;
  cropper_root = some 7;
  selection_ready = true;
  last_object_url = some 0;
  made = 1;
  live = 0 ∷ [];
}

abbrev refused : Replies
refused = record {
  has_selection = true;
  output_size = some (record { width = 400; height = 400 });
  canvas_reply = canvas;
  blob_reply = blob 30000 (codes "image/png");
  upload_result = some (error_with (codes "No."));
}

handle_save_lem_example :
    ((handle_save show any_size refused cropping).is_open ≡ true)
    × (is_some (handle_save show any_size refused cropping).local_error ≡ true)
    × ((handle_save show any_size refused cropping).preview_src ≡ some 0)
    × ((handle_save show any_size refused cropping).is_file_selected ≡ true)
handle_save_lem_example = handle_save_lem show any_size refused cropping refl

cropping-IsClean : IsClean cropping
cropping-IsClean = record { only_last = refl; shows_last = inr refl }

late_upload_example :
    let (waiting, request) =
      settle_blob show image_png any_size (blob 30000 (codes "image/png")) cropping in
    let held = on_file_change show any_size (some (png_file (codes "b"))) waiting in
    let t = settle_upload none held in
    (request
      ≡ upload (record {
        size = 30000;
        name = codes "crop." ++ extension image_png;
        mime = codes "image/png";
      }))
    × (held.is_file_selected ≡ true)
    × (held.file_name ≡ codes "b")
    × (held.live ≡ cropping.made ∷ [])
    × (t.is_open ≡ false)
    × (t.is_file_selected ≡ false)
    × (t.preview_src ≡ none)
    × (t.live ≡ [])
unfolding validate_image_file text_eq
late_upload_example =
    late_upload show any_size image_png 30000 (codes "image/png") (png_file (codes "b")) cropping
      cropping-IsClean refl refl
