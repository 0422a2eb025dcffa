-- ===== src/ImageCrop/Dialog.antt =====
-- The state of the dialog: `Root` of web/frontend/src/component/ImageCropDialog/index.tsx, with
-- utils.ts beside it. The elements of the cropper are numbers. The browser's table of object URLs is
-- part of the state, and so are the microtasks that wait. How a number is written is an argument.
use touhou_cloud_music_thcdb.Common.{
  ℕ, suc, ◌+◌, ◌*◌, ◌/◌, ◌%◌, Bool, true, false, not, ◌&&◌, ◌||◌, Option, none, some, is_some, Text,
  codes, text_eq, List, [], ◌∷◌, ◌++◌, ◌==◌, ltb, if◌then◌else◌,
}
use touhou_cloud_music_thcdb.ImageUpload.{remove}

pub record ImageFile : Type 0 where
  pub name : Text
  pub size : ℕ
  pub mime : Text

pub data ImageFileType : Type 0 where
  image_png : ImageFileType
  image_jpeg : ImageFileType

pub record FileSizeRange : Type 0 where
  pub min : ℕ
  pub max : ℕ

abbrev pub default_file_size_range : FileSizeRange
default_file_size_range = record { min = 10240; max = 10485760 }

pub record Dialog : Type 0 where
  pub is_open : Bool
  pub preview_src : Option ℕ
  pub file_name : Text
  pub file_size : ℕ
  pub is_file_selected : Bool
  pub local_error : Option Text
  pub input_file_type : ImageFileType
  pub cropper_root : Option ℕ
  pub selection_ready : Bool
  pub last_object_url : Option ℕ
  pub is_clamp_queued : Bool
  pub made : ℕ
  pub live : List ℕ
  pub previews : List ℕ

abbrev pub new_dialog : Dialog
new_dialog = record {
  is_open = false;
  preview_src = none;
  file_name = codes "image";
  file_size = 0;
  is_file_selected = false;
  local_error = none;
  input_file_type = image_png;
  cropper_root = none;
  selection_ready = false;
  last_object_url = none;
  is_clamp_queued = false;
  made = 0;
  live = [];
  previews = [];
}

-- `revokeObjectURL` of the last URL, if there is one
unfoldable pub revoke_last : Dialog → Dialog
unfolding remove
revoke_last s = elim s.last_object_url [
  | none ↦ s
  | some url ↦ record s { live = remove url s.live; last_object_url = none }
]

unfoldable pub clear_file_state : Dialog → Dialog
unfolding revoke_last
clear_file_state s = revoke_last (record s {
  cropper_root = none;
  selection_ready = false;
  file_name = codes "image";
  file_size = 0;
  is_file_selected = false;
  input_file_type = image_png;
  preview_src = none;
})

unfoldable pub clear_local_state : Dialog → Dialog
unfolding clear_file_state
clear_local_state s = clear_file_state (record s { local_error = none })

unfoldable pub sync_open : Bool → Dialog → Dialog
unfolding clear_local_state
sync_open true s = record s { is_open = true }
sync_open false s = clear_local_state (record s { is_open = false })

unfoldable pub is_supported_image_type : ImageFile → Bool
is_supported_image_type file =
    text_eq file.mime (codes "image/png") || text_eq file.mime (codes "image/jpeg")

abbrev pub type_of : ImageFile → ImageFileType
type_of file = if text_eq file.mime (codes "image/jpeg") then image_jpeg else image_png

-- The effect on the element and the preview: without one of them no selection is ready. Else a
-- microtask looks at the selection, `selection_checked`.
unfoldable pub run_effect : Dialog → Dialog
run_effect s =
    if is_some s.cropper_root && is_some s.preview_src
    then s
    else record s { selection_ready = false }

-- The microtask: the selection it finds, if any, is connected or not.
unfoldable pub selection_checked : Option Bool → Dialog → Dialog
selection_checked none s = record s { selection_ready = false }
selection_checked (some is_connected) s = record s { selection_ready = is_connected }

-- The microtask of a file that was chosen, which has the URL.
unfoldable pub show_preview : ℕ → Dialog → Dialog
unfolding run_effect
show_preview url s = elim s.last_object_url [
  | none ↦ s
  | some last ↦ if last == url then run_effect (record s { preview_src = some url }) else s
]

-- The microtask that has waited longest.
unfoldable pub run_preview : Dialog → Dialog
unfolding show_preview
run_preview s = elim s.previews [
  | [] ↦ s
  | url ∷ rest ↦ show_preview url (record s { previews = rest })
]

unfoldable pub set_cropper_root : Option ℕ → Dialog → Dialog
unfolding run_effect
set_cropper_root root s = run_effect (record s { cropper_root = root })

unfoldable pub on_cleanup : Dialog → Dialog
unfolding revoke_last
on_cleanup s = revoke_last s

-- `handleImageTransform`: whether its microtask is queued, and that it ran.
unfoldable pub handle_image_transform : Dialog → Dialog × Bool
handle_image_transform s =
    if s.is_clamp_queued
    then (s, false)
    else if is_some s.cropper_root
    then (record s { is_clamp_queued = true }, true)
    else (record s { is_clamp_queued = false }, false)

unfoldable pub clamp_ran : Dialog → Dialog
clamp_ran s = record s { is_clamp_queued = false }

-- `canSave`: whether the parent is busy, and whether there is a connected selection.
unfoldable pub can_save : Bool → Bool → Dialog → Bool
can_save busy connected s =
    not busy && is_some s.preview_src && s.selection_ready && is_some s.cropper_root && connected

module _ (show : ℕ → Text) where
  -- `toFixed(1)` of bytes / unit, a half rounded up.
  abbrev pub to_fixed : ℕ → ℕ → Text
  to_fixed bytes unit =
      let tenths = (bytes * 20 + unit) / (2 * unit) in
      show (tenths / 10) ++ codes "." ++ show (tenths % 10)

  unfoldable pub format_bytes : ℕ → Text
  format_bytes bytes =
      if ltb bytes 1024
      then show bytes ++ codes " B"
      else if ltb bytes 1048576
      then to_fixed bytes 1024 ++ codes " KB"
      else to_fixed bytes 1048576 ++ codes " MB"

  unfoldable pub validate_image_file : ImageFile → FileSizeRange → Option Text
  unfolding is_supported_image_type format_bytes
  validate_image_file file range =
      if not (is_supported_image_type file)
      then some (codes "Only PNG/JPEG images are supported.")
      else if ltb file.size range.min
      then some (codes "File is too small. Minimum is " ++ format_bytes range.min ++ codes ".")
      else if ltb range.max file.size
      then some (codes "File is too large. Maximum is " ++ format_bytes range.max ++ codes ".")
      else none

  -- A file that is accepted.
  unfoldable pub take_file : ImageFile → Dialog → Dialog
  unfolding revoke_last
  take_file file s =
      let freed = revoke_last (record s {
        cropper_root = none;
        file_name = file.name;
        file_size = file.size;
        is_file_selected = true;
        input_file_type = type_of file;
      }) in
      record freed {
        last_object_url = some freed.made;
        preview_src = none;
        selection_ready = false;
        made = suc freed.made;
        live = freed.made ∷ freed.live;
        previews = freed.previews ++ (freed.made ∷ []);
      }

  unfoldable pub on_file_change : FileSizeRange → Option ImageFile → Dialog → Dialog
  on_file_change range none s = clear_local_state (record s { local_error = none })
  on_file_change range (some file) s = elim (validate_image_file file range) [
    | some error ↦
        let cleared = clear_file_state (record s { local_error = none }) in
        record cleared { local_error = some error }
    | none ↦ take_file file (record s { local_error = none })
  ]
