-- ===== src/ImageUpload.antt =====
-- The draft of an image that is uploaded for an entity:
-- web/frontend/src/view/image_upload/store.ts. Files are an argument. The browser's table of object
-- URLs is part of the state: how many were made, which numbers them, and those not yet revoked.
pub mod Urls
pub mod Submit
mod Examples
use touhou_cloud_music_thcdb.Common.{
  ℕ, zero, suc, ◌+◌, Bool, true, false, ◌||◌, not, Option, none, some, is_some, Text, nonempty,
  codes, List, [], ◌∷◌, ◌==◌, if◌then◌else◌,
}

pub data Url : Type 0 where
  given : Text → Url
  object : ℕ → Url

pub record Store {ℓ} (File : Type ℓ) : Type ℓ where
  pub is_open : Bool
  pub draft_file : Option File
  pub draft_preview_url : Option Url
  pub should_revoke : Bool
  pub submit_error : Option Text
  pub is_uploading : Bool
  pub made : ℕ
  pub live : List ℕ

-- What an upload may throw: an `Error` with its message, or any other value.
pub data Thrown : Type 0 where
  error_with : Text → Thrown
  other : Thrown

abbrev pub submit_failed : Text
submit_failed = codes "Submit failed."

unfoldable pub get_submit_error_message : Thrown → Text
get_submit_error_message (error_with message) = if nonempty message then message else submit_failed
get_submit_error_message other = submit_failed

unfoldable pub remove : ℕ → List ℕ → List ℕ
remove i [] = []
remove i (j ∷ js) = let rest = remove i js in if j == i then rest else j ∷ rest

-- `revokeObjectURL`, which ignores what is not an object URL
abbrev revoked : Option Url → List ℕ → List ℕ
unfolding remove
revoked (some (object i)) live = remove i live
revoked url live = live

module _ {ℓ} {File : Type ℓ} where
  unfoldable pub revoke_draft_preview_url : Store File → Store File
  unfolding remove
  revoke_draft_preview_url s =
      if s.should_revoke then record s { live = revoked s.draft_preview_url s.live } else s

  -- The store when it is created, with nothing in the table.
  unfoldable pub create : Option File → Option Text → Store File
  create none preview = record {
    is_open = false;
    draft_file = none;
    draft_preview_url = elim preview [ none ↦ none | some url ↦ some (given url) ];
    should_revoke = false;
    submit_error = none;
    is_uploading = false;
    made = 0;
    live = [];
  }
  create (some file) preview = record {
    is_open = false;
    draft_file = some file;
    draft_preview_url = some (object 0);
    should_revoke = true;
    submit_error = none;
    is_uploading = false;
    made = 1;
    live = 0 ∷ [];
  }

  unfoldable pub set_is_open : Bool → Store File → Store File
  set_is_open next s = record s { is_open = next }

  unfoldable pub set_draft : File → Store File → Store File
  unfolding revoke_draft_preview_url
  set_draft file s =
      let freed = revoke_draft_preview_url s in
      record freed {
        draft_file = some file;
        draft_preview_url = some (object freed.made);
        should_revoke = true;
        submit_error = none;
        made = suc freed.made;
        live = freed.made ∷ freed.live;
      }

  unfoldable pub on_open : Store File → Store File
  unfolding set_is_open
  on_open s = if s.is_uploading then s else set_is_open true s

  unfoldable pub on_draft_save : File → Store File → Store File
  unfolding set_draft
  on_draft_save file s = set_draft file s

  -- `onSubmit` up to the upload, with the file that is uploaded.
  unfoldable pub begin_submit : Store File → Store File × Option File
  begin_submit s = elim s.draft_file [
    | none ↦ (s, none)
    | some file ↦
        if s.is_uploading
        then (s, none)
        else (record s { is_uploading = true; submit_error = none }, some file)
  ]

  -- Its end: `none` when the upload succeeded.
  unfoldable pub settle_submit : Option Thrown → Store File → Store File
  unfolding get_submit_error_message
  settle_submit none s = record s { is_uploading = false }
  settle_submit (some error) s = record s {
    submit_error = some (get_submit_error_message error);
    is_uploading = false;
  }

  unfoldable pub on_cleanup : Store File → Store File
  unfolding revoke_draft_preview_url
  on_cleanup s = revoke_draft_preview_url s
