-- ===== src/EntityForms.antt =====
-- Lists of a form that are shown beside a store of their own:
-- web/frontend/src/view/tag/edit/comp/TagRelationsField.tsx,
-- web/frontend/src/view/song/edit/comp/SongRelationsField.tsx and SongLanguagesField.tsx, and
-- web/frontend/src/view/release/edit/comp/ReleaseArtistsField.tsx, ReleaseEventsField.tsx and
-- ReleaseCreditsField.tsx. Entities are their ids. The form is `FormArrays`.
-- A store has `undefined` beyond its end, so an item that is set to it is written out as `none`.
pub mod Once
pub mod Relations
pub mod CreditTracks
pub mod CreditBoxes
pub mod Titles
pub mod Sync
pub mod Shared
mod Examples
use touhou_cloud_music_thcdb.Common.{
  ℕ, zero, suc, Bool, true, false, not, ◌||◌, Option, none, some, List, [], ◌∷◌, ◌++◌, ◌==◌, has,
  length, get_elem?, if◌then◌else◌,
}
use touhou_cloud_music_thcdb.ReleaseTracks.{FormArrays}

module _ {A : Type 0} where
  -- `toSpliced(index, 1)`
  unfoldable pub splice_out : ℕ → List A → List A
  splice_out i [] = []
  splice_out zero (x ∷ xs) = xs
  splice_out (suc i) (x ∷ xs) = x ∷ splice_out i xs

  -- A store's `set(index, value)` on an item that exists.
  unfoldable pub set_at : ℕ → A → List A → List A
  set_at i y [] = []
  set_at zero y (x ∷ xs) = y ∷ xs
  set_at (suc i) y (x ∷ xs) = x ∷ set_at i y xs

-- The related ids in the form and in the store; `none` where none is chosen yet.
pub record RelationList : Type 0 where
  pub form_ids : List (Option ℕ)
  pub refs : List (Option ℕ)

-- The callback of `some`, from an index on.
unfoldable pub exists_from : ℕ → ℕ → ℕ → List (Option ℕ) → Bool
exists_from idx ignore_index candidate [] = false
exists_from idx ignore_index candidate (none ∷ refs) =
    exists_from (suc idx) ignore_index candidate refs
exists_from idx ignore_index candidate (some id ∷ refs) =
    let rest = exists_from (suc idx) ignore_index candidate refs in
    if idx == ignore_index then rest else (id == candidate || rest)

abbrev pub is_own : Option ℕ → ℕ → Bool
is_own none candidate = false
is_own (some id) candidate = candidate == id

-- The ids in the form and in the store, of the artists or the events of a release.
pub record PickedList : Type 0 where
  pub form_ids : List ℕ
  pub picked : List ℕ

-- A row of credits: the artist and the role.
pub record CreditRow : Type 0 where
  pub artist : Option ℕ
  pub role : Option ℕ

pub record CreditList : Type 0 where
  pub form_rows : List CreditRow
  pub meta : List CreditRow

abbrev pub no_credit : CreditRow
no_credit = record { artist = none; role = none }

-- Of a tag, which is `own` where it exists already.
unfoldable pub is_relation_exists : Option ℕ → ℕ → ℕ → List (Option ℕ) → Bool
is_relation_exists own candidate ignore_index refs =
    if is_own own candidate then true else exists_from 0 ignore_index candidate refs

-- Of a song.
unfoldable pub is_song_relation_exists : Option ℕ → ℕ → ℕ → List (Option ℕ) → Bool
is_song_relation_exists current_song_id candidate ignore_index refs =
    if is_own current_song_id candidate then true else exists_from 0 ignore_index candidate refs

abbrev pub has_language : List (Option ℕ) → ℕ → Bool
has_language [] id = false
has_language (none ∷ languages) id = has_language languages id
has_language (some l ∷ languages) id = l == id || has_language languages id

-- `setMeta(index, (row) => ...)`
unfoldable pub update_at : ℕ → (CreditRow → CreditRow) → List CreditRow → List CreditRow
update_at i change [] = []
update_at zero change (row ∷ rows) = change row ∷ rows
update_at (suc i) change (row ∷ rows) = row ∷ update_at i change rows

-- `setInput` of a member of the row at an index.
abbrev pub set_row : FormArrays → ℕ → (CreditRow → CreditRow) → List CreditRow → List CreditRow
set_row form i change rows = elim (get_elem? rows i) [
  | none ↦ rows
  | some row ↦ form.set_input rows i (change row)
]

module _ (form : FormArrays) where
  unfoldable pub add_relation : RelationList → RelationList
  add_relation s = record { form_ids = form.insert s.form_ids none; refs = s.refs ++ (none ∷ []) }

  unfoldable pub remove_relation_at : ℕ → RelationList → RelationList
  remove_relation_at i s = record {
    form_ids = form.remove s.form_ids i;
    refs = splice_out i s.refs;
  }

  unfoldable pub set_tag_at : Option ℕ → ℕ → ℕ → RelationList → RelationList
  unfolding is_relation_exists
  set_tag_at own i selected s = if is_relation_exists own selected i s.refs then s else record {
    form_ids = form.set_input s.form_ids i (some selected);
    refs = set_at i (some selected) s.refs;
  }

  unfoldable pub add_song_relation : RelationList → RelationList
  add_song_relation s = record {
    form_ids = form.insert s.form_ids none;
    refs = s.refs ++ (none ∷ []);
  }

  unfoldable pub remove_song_relation_at : ℕ → RelationList → RelationList
  remove_song_relation_at i s = record {
    form_ids = form.remove s.form_ids i;
    refs = splice_out i s.refs;
  }

  unfoldable pub set_song_at : Option ℕ → ℕ → ℕ → RelationList → RelationList
  unfolding is_song_relation_exists
  set_song_at current_song_id i selected s =
      if is_song_relation_exists current_song_id selected i s.refs then s else record {
        form_ids = form.set_input s.form_ids i (some selected);
        refs = set_at i (some selected) s.refs;
      }

  -- The artists of a release.
  unfoldable pub add_artist : ℕ → PickedList → PickedList
  add_artist artist s =
      if has s.picked artist
      then s
      else record { form_ids = form.insert s.form_ids artist; picked = s.picked ++ (artist ∷ []) }

  unfoldable pub remove_artist_at : ℕ → PickedList → PickedList
  remove_artist_at i s = record {
    form_ids = form.remove s.form_ids i;
    picked = splice_out i s.picked;
  }

  -- The events of a release.
  unfoldable pub add_event : ℕ → PickedList → PickedList
  add_event event s =
      if has s.picked event
      then s
      else record { form_ids = form.insert s.form_ids event; picked = s.picked ++ (event ∷ []) }

  unfoldable pub remove_event_at : ℕ → PickedList → PickedList
  remove_event_at i s = record {
    form_ids = form.remove s.form_ids i;
    picked = splice_out i s.picked;
  }

  -- The credits of a release.
  unfoldable pub add_credit_row : CreditList → CreditList
  add_credit_row s = record {
    form_rows = form.insert s.form_rows no_credit;
    meta = s.meta ++ (no_credit ∷ []);
  }

  unfoldable pub remove_credit_row_at : ℕ → CreditList → CreditList
  remove_credit_row_at i s = record {
    form_rows = form.remove s.form_rows i;
    meta = splice_out i s.meta;
  }

  unfoldable pub set_credit_artist_at : ℕ → ℕ → CreditList → CreditList
  unfolding update_at
  set_credit_artist_at i artist s = record {
    form_rows = set_row form i (λ row. record row { artist = some artist }) s.form_rows;
    meta = update_at i (λ row. record row { artist = some artist }) s.meta;
  }

  unfoldable pub set_credit_role_at : ℕ → ℕ → CreditList → CreditList
  unfolding update_at
  set_credit_role_at i role s = record {
    form_rows = set_row form i (λ row. record row { role = some role }) s.form_rows;
    meta = update_at i (λ row. record row { role = some role }) s.meta;
  }

  -- The languages of a song, which have no store beside the form.
  unfoldable pub add_language : List (Option ℕ) → List (Option ℕ)
  add_language languages = form.insert languages none

  unfoldable pub remove_language_at : ℕ → List (Option ℕ) → List (Option ℕ)
  remove_language_at i languages = form.remove languages i

  unfoldable pub set_language_at : ℕ → Option ℕ → List (Option ℕ) → List (Option ℕ)
  set_language_at i none languages = languages
  set_language_at i (some lang) languages =
      if has_language languages lang then languages else form.set_input languages i (some lang)
