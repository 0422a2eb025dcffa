-- ===== src/ImageCrop/Urls.antt =====
-- The object URLs of the dialog, in every order of what happens to it.
use touhou_cloud_music_thcdb.Common.{
  ℕ, ◌≡◌, Bool, true, false, Option, none, some, Text, List, [], ◌∷◌, ◌⊎◌, arith,
}
use touhou_cloud_music_thcdb.ImageUpload.{remove, Thrown}
use touhou_cloud_music_thcdb.ImageCrop.Dialog.{
  Dialog, ImageFile, FileSizeRange, new_dialog, revoke_last, clear_file_state, clear_local_state,
  sync_open, run_effect, selection_checked, show_preview, run_preview, set_cropper_root, on_cleanup,
  handle_image_transform, clamp_ran, take_file, on_file_change,
}
use touhou_cloud_music_thcdb.ImageCrop.Saving.{
  OutputSize, CanvasReply, BlobReply, begin_save, settle_canvas, settle_blob, settle_upload,
}
use touhou_cloud_music_thcdb.ImageCrop.Dialog.{ImageFileType}

pub data Event : Type 0 where
  opened : Bool → Event
  chosen : FileSizeRange → Option ImageFile → Event
  cleared : Event
  mounted : Option ℕ → Event
  preview_turn : Event
  checked : Option Bool → Event
  transformed : Event
  clamped : Event
  save_clicked : Bool → Option OutputSize → Event
  canvas_arrived : CanvasReply → Event
  blob_arrived : ImageFileType → FileSizeRange → BlobReply → Event
  upload_ended : Option Thrown → Event

abbrev pub url_list : Option ℕ → List ℕ
url_list none = []
url_list (some url) = url ∷ []

-- The one URL that is alive is the last, and what is previewed is that.
pub record IsClean (s : Dialog) : Type 0 where
  pub only_last : s.live ≡ url_list s.last_object_url
  pub shows_last : (s.preview_src ≡ none) ⊎ (s.preview_src ≡ s.last_object_url)

module _ (show : ℕ → Text) where
  unfoldable pub after : Event → Dialog → Dialog
  after (opened state) s = sync_open state s
  after (chosen range file) s = on_file_change show range file s
  after cleared s = clear_local_state s
  after (mounted root) s = set_cropper_root root s
  after preview_turn s = run_preview s
  after (checked found) s = selection_checked found s
  after transformed s = (handle_image_transform s).0
  after clamped s = clamp_ran s
  after (save_clicked found size) s = (begin_save found size s).0
  after (canvas_arrived reply) s = (settle_canvas reply s).0
  after (blob_arrived kind range reply) s = (settle_blob show kind range reply s).0
  after (upload_ended result) s = settle_upload result s

  unfoldable pub after_all : List Event → Dialog → Dialog
  unfolding after
  after_all [] s = s
  after_all (ev ∷ evs) s = after_all evs (after ev s)

on_cleanup-live : (s : Dialog) → IsClean s → (on_cleanup s).live ≡ []
unfolding on_cleanup revoke_last remove
on_cleanup-live s c = ground arith

clear_file_state-IsClean :
    (s : Dialog) → s.live ≡ url_list s.last_object_url → IsClean (clear_file_state s)
unfolding clear_file_state revoke_last remove
clear_file_state-IsClean s c = ground arith

-- A dialog that is cleared has no URL left.
clear_file_state-empty :
    (s : Dialog)
    → s.live ≡ url_list s.last_object_url
    → ((clear_file_state s).live ≡ []) × ((clear_file_state s).preview_src ≡ none)
unfolding clear_file_state revoke_last remove
clear_file_state-empty s c = ground arith

take_file-IsClean :
    (show : ℕ → Text) (file : ImageFile) (s : Dialog) → IsClean s → IsClean (take_file show file s)
unfolding take_file revoke_last remove
take_file-IsClean show file s c = ground arith

show_preview-IsClean : (url : ℕ) (s : Dialog) → IsClean s → IsClean (show_preview url s)
unfolding show_preview run_effect
show_preview-IsClean url s c = ground arith

run_preview-IsClean : (s : Dialog) → IsClean s → IsClean (run_preview s)
unfolding run_preview
run_preview-IsClean s c = grind (arith, show_preview-IsClean)

clear_local_state-IsClean : (s : Dialog) → IsClean s → IsClean (clear_local_state s)
unfolding clear_local_state
clear_local_state-IsClean s c =
    clear_file_state-IsClean (record s { local_error = none }) c.only_last

sync_open-IsClean : (state : Bool) (s : Dialog) → IsClean s → IsClean (sync_open state s)
unfolding sync_open
sync_open-IsClean true s c = ground arith
sync_open-IsClean false s c =
    clear_local_state-IsClean (record s { is_open = false }) (ground arith)

on_file_change-IsClean :
    (show : ℕ → Text) (range : FileSizeRange) (file : Option ImageFile) (s : Dialog)
    → IsClean s
    → IsClean (on_file_change show range file s)
unfolding on_file_change
on_file_change-IsClean show range none s c =
    clear_local_state-IsClean (record s { local_error = none }) (ground arith)
on_file_change-IsClean show range (some file) s c =
    let fresh : Dialog = record s { local_error = none } in
    ground (arith, take_file-IsClean show file fresh, clear_file_state-IsClean fresh)

settle_upload-IsClean : (r : Option Thrown) (s : Dialog) → IsClean s → IsClean (settle_upload r s)
unfolding settle_upload
settle_upload-IsClean none s c = sync_open-IsClean false s c
settle_upload-IsClean (some thrown) s c = ground arith

module _ (show : ℕ → Text) where
  after-IsClean : (ev : Event) (s : Dialog) → IsClean s → IsClean (after show ev s)
  unfolding after set_cropper_root run_effect selection_checked handle_image_transform clamp_ran
      begin_save settle_canvas settle_blob
  after-IsClean (opened state) s c = sync_open-IsClean state s c
  after-IsClean (chosen range file) s c = on_file_change-IsClean show range file s c
  after-IsClean cleared s c = clear_local_state-IsClean s c
  after-IsClean preview_turn s c = run_preview-IsClean s c
  after-IsClean (upload_ended result) s c = settle_upload-IsClean result s c
  after-IsClean (mounted root) s c = ground arith
  after-IsClean (checked found) s c = ground arith
  after-IsClean transformed s c = ground arith
  after-IsClean clamped s c = ground arith
  after-IsClean (save_clicked found size) s c = ground arith
  after-IsClean (canvas_arrived reply) s c = ground arith
  after-IsClean (blob_arrived kind range reply) s c = ground arith

  all-IsClean : (evs : List Event) (s : Dialog) → IsClean s → IsClean (after_all show evs s)
  unfolding after_all
  all-IsClean [] s c = c
  all-IsClean (ev ∷ evs) s c = all-IsClean evs (after show ev s) (after-IsClean ev s c)

  closed-empty :
      (s : Dialog)
      → IsClean s
      → ((sync_open false s).live ≡ []) × ((sync_open false s).preview_src ≡ none)
  unfolding sync_open clear_local_state
  closed-empty s c =
      clear_file_state-empty (record s { is_open = false; local_error = none }) c.only_last

  -- Whatever happens to a new dialog, in whatever order of clicks, microtasks and replies: the one
  -- object URL that is alive, if any, is the last that was made, and only that is previewed; when
  -- the dialog is closed no URL is left and nothing is previewed, and when it is unmounted no URL
  -- is left.
  pub reachable-IsClean :
      (evs : List Event)
      → let s = after_all show evs new_dialog in
        IsClean s
        × ((sync_open false s).live ≡ [])
        × ((sync_open false s).preview_src ≡ none)
        × ((on_cleanup s).live ≡ [])
  reachable-IsClean evs =
      let c = all-IsClean evs new_dialog (ground arith) in
      let s = after_all show evs new_dialog in
      (c, (closed-empty s c).0, (closed-empty s c).1, on_cleanup-live s c)
