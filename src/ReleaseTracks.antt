-- ===== src/ReleaseTracks.antt =====
-- The discs and tracks of a release that is edited:
-- web/frontend/src/view/release/edit/comp/ReleaseTracksField.tsx, with the removal of a track in
-- TrackFieldItem.tsx. The form of a third-party library is what the operations of `FormArrays` do.
pub mod Selection
pub mod Discs
pub mod Items
pub mod Artists
mod Examples
use touhou_cloud_music_thcdb.Common.{
  ℕ, zero, suc, ◌+◌, ◌-◌, ◌%◌, ◌≡◌, ◌<◌, Bool, true, false, not, Option, none, some, List, [], ◌∷◌,
  ◌++◌, ◌==◌, Text, codes, text_eq, nonempty, trim, length, get_elem?, if◌then◌else◌,
}

-- What the library does to an array of the form: `insert` with no place, `remove` at a place, and
-- `setInput` of one item.
pub record FormArrays : Type 1 where
  pub insert : {A : Type 0} → List A → A → List A
  pub remove : {A : Type 0} → List A → ℕ → List A
  pub set_input : {A : Type 0} → List A → ℕ → A → List A

pub record NewDisc : Type 0 where
  pub name : Option Text

-- A track of the form: its disc, and the ids of its song and of its artists.
pub record Track : Type 0 where
  pub disc_index : ℕ
  pub song_id : Option ℕ
  pub artists : List ℕ

-- `{ disc_index: selectedDisc() }`
abbrev pub new_track : ℕ → Track
new_track disc = record { disc_index = disc; song_id = none; artists = [] }

pub record Tracks : Type 0 where
  pub discs : List NewDisc
  pub tracks : List Track
  pub selected_disc : ℕ

abbrev pub unnamed : NewDisc
unnamed = record { name = some (codes "") }

abbrev pub indices_from : ℕ → ℕ → List Track → List ℕ
indices_from i disc [] = []
indices_from i disc (t ∷ tracks) =
    let rest = indices_from (suc i) disc tracks in if t.disc_index == disc then i ∷ rest else rest

unfoldable pub visible_track_indices : Tracks → List ℕ
visible_track_indices s = indices_from 0 s.selected_disc s.tracks

module _ (form : FormArrays) (show : ℕ → Text) where
  unfoldable pub on_add_track : Tracks → Tracks
  on_add_track s =
      let first = record s { discs = form.insert s.discs unnamed; selected_disc = 0 } in
      let ready = if length s.discs == 0 then first else s in
      record ready { tracks = form.insert ready.tracks (new_track ready.selected_disc) }

  abbrev pub name_of : Option NewDisc → Text
  name_of none = []
  name_of (some d) = elim d.name [ none ↦ [] | some name ↦ name ]

  unfoldable pub current_disc_name : Tracks → Text
  current_disc_name s =
      let name = name_of (get_elem? s.discs s.selected_disc) in
      if nonempty name then name else codes "Disc " ++ show (s.selected_disc + 1)

  unfoldable pub is_default_name : Tracks → Bool
  is_default_name s = not (nonempty (name_of (get_elem? s.discs s.selected_disc)))

  -- `selected - 1 + count`, in this order of the source's whole numbers, is never below 0.
  unfoldable pub on_prev_disc : Tracks → Tracks
  on_prev_disc s =
      let count = length s.discs in
      if count == 0 then s else record s { selected_disc = (s.selected_disc + count - 1) % count }

  unfoldable pub on_next_disc : Tracks → Tracks
  on_next_disc s =
      let count = length s.discs in
      if count == 0 then s else record s { selected_disc = (s.selected_disc + 1) % count }

  unfoldable pub on_add_disc : Tracks → Tracks
  on_add_disc s = record s { discs = form.insert s.discs unnamed; selected_disc = length s.discs }

  unfoldable pub on_confirm_rename : Text → Tracks → Tracks
  unfolding current_disc_name
  on_confirm_rename next s =
      if text_eq (current_disc_name s) next
      then s
      else record s { discs = form.set_input s.discs s.selected_disc (record { name = some next }) }

  unfoldable pub on_remove_track : ℕ → Tracks → Tracks
  on_remove_track index s = record s { tracks = form.remove s.tracks index }

-- The dialog for the name of a disc.
pub record EditDiscNameDialog : Type 0 where
  pub is_open : Bool
  pub name : Text

unfoldable pub sync_open : Text → Bool → EditDiscNameDialog → EditDiscNameDialog
sync_open current_name state s =
    if state
    then record { is_open = true; name = trim current_name }
    else record s { is_open = false }

-- The name that is confirmed, and the dialog afterwards.
unfoldable pub confirm : EditDiscNameDialog → Text × EditDiscNameDialog
confirm s = (trim s.name, record s { is_open = false })
