-- ===== src/EntityForms/Titles.antt =====
-- More lists of the edit forms: the credits, artists and titles of a song in SongCreditsField.tsx,
-- SongArtistsField.tsx and SongLocalizedTitlesField.tsx of web/frontend/src/view/song/edit/comp, the
-- names and founders of a label in LabelLocalizedNamesField.tsx and LabelFoundersField.tsx of
-- web/frontend/src/view/label/edit/comp, and ReleaseCatalogNumbersField.tsx of
-- web/frontend/src/view/release/edit/comp. Titles, names and catalog numbers are rows with the
-- language or the label that is chosen.
use touhou_cloud_music_thcdb.Common.{
  ℕ, Bool, Option, none, some, List, [], ◌∷◌, ◌++◌, ◌==◌, has, map, Text, if◌then◌else◌, ◌||◌,
  false, get_elem?,
}
use touhou_cloud_music_thcdb.ReleaseTracks.{FormArrays}
use touhou_cloud_music_thcdb.EntityForms.{
  splice_out, set_at, PickedList, CreditList, no_credit, update_at, set_row,
}

-- Rows with the object that is chosen for each. The store keeps the objects themselves, numbered
-- here: one that is chosen in two rows is shared, and `id_of` is the id that an object has now.
pub record SharedList : Type 0 where
  pub form_ids : List (Option ℕ)
  pub refs : List (Option ℕ)
  pub id_of : ℕ → ℕ

-- `setLanguages(index, lang)`: the members of the chosen object are written into the object that the
-- row has, and only a row without one gets the chosen object.
unfoldable pub set_object : ℕ → ℕ → SharedList → SharedList
unfolding set_at
set_object i object s = elim (get_elem? s.refs i) [
  | some (some held) ↦ record s { id_of = λ x. if x == held then s.id_of object else s.id_of x }
  | _ ↦ record s { refs = set_at i (some object) s.refs }
]

-- A founder of a label as the list shows it.
pub record FounderEntry : Type 0 where
  pub id : ℕ
  pub name : Text

pub record FounderList : Type 0 where
  pub form_ids : List ℕ
  pub founders : List FounderEntry

unfoldable pub contain : List FounderEntry → ℕ → Bool
contain [] id = false
contain (entry ∷ founders) id = entry.id == id || contain founders id

-- The names of founders that arrive, by their place.
unfoldable pub named : List FounderEntry → List (Option FounderEntry) → List FounderEntry
named [] results = []
named (entry ∷ founders) [] = entry ∷ founders
named (entry ∷ founders) (none ∷ results) = entry ∷ named founders results
named (entry ∷ founders) (some artist ∷ results) = artist ∷ named founders results

module _ (form : FormArrays) where
  -- The credits of a song.
  unfoldable pub add_credit : CreditList → CreditList
  add_credit s = record {
    form_rows = form.insert s.form_rows no_credit;
    meta = s.meta ++ (no_credit ∷ []);
  }

  unfoldable pub remove_credit_at : ℕ → CreditList → CreditList
  remove_credit_at i s = record {
    form_rows = form.remove s.form_rows i;
    meta = splice_out i s.meta;
  }

  unfoldable pub set_artist_at : ℕ → ℕ → CreditList → CreditList
  unfolding update_at
  set_artist_at i artist s = record {
    form_rows = set_row form i (λ row. record row { artist = some artist }) s.form_rows;
    meta = update_at i (λ row. record row { artist = some artist }) s.meta;
  }

  unfoldable pub set_role_at : ℕ → ℕ → CreditList → CreditList
  unfolding update_at
  set_role_at i role s = record {
    form_rows = set_row form i (λ row. record row { role = some role }) s.form_rows;
    meta = update_at i (λ row. record row { role = some role }) s.meta;
  }

  -- The artists of a song.
  unfoldable pub add_song_artist : ℕ → PickedList → PickedList
  add_song_artist artist s =
      if has s.picked artist
      then s
      else record { form_ids = form.insert s.form_ids artist; picked = s.picked ++ (artist ∷ []) }

  unfoldable pub remove_song_artist_at : ℕ → PickedList → PickedList
  remove_song_artist_at i s = record {
    form_ids = form.remove s.form_ids i;
    picked = splice_out i s.picked;
  }

  -- The titles of a song.
  unfoldable pub add_localized_title : SharedList → SharedList
  add_localized_title s = record s {
    form_ids = form.insert s.form_ids none;
    refs = s.refs ++ (none ∷ []);
  }

  unfoldable pub remove_localized_title_at : ℕ → SharedList → SharedList
  remove_localized_title_at i s = record s {
    form_ids = form.remove s.form_ids i;
    refs = splice_out i s.refs;
  }

  unfoldable pub set_title_language_at : ℕ → Option ℕ → SharedList → SharedList
  unfolding set_object
  set_title_language_at i none s = s
  set_title_language_at i (some lang) s =
      let chosen = set_object i lang s in
      record chosen { form_ids = form.set_input s.form_ids i (some (chosen.id_of lang)) }

  -- The names of a label.
  unfoldable pub add_localized_name : SharedList → SharedList
  add_localized_name s = record s {
    form_ids = form.insert s.form_ids none;
    refs = s.refs ++ (none ∷ []);
  }

  unfoldable pub remove_localized_name_at : ℕ → SharedList → SharedList
  remove_localized_name_at i s = record s {
    form_ids = form.remove s.form_ids i;
    refs = splice_out i s.refs;
  }

  unfoldable pub set_name_language_at : ℕ → Option ℕ → SharedList → SharedList
  unfolding set_object
  set_name_language_at i none s = s
  set_name_language_at i (some lang) s =
      let chosen = set_object i lang s in
      record chosen { form_ids = form.set_input s.form_ids i (some (chosen.id_of lang)) }

  -- The catalog numbers of a release.
  unfoldable pub add_catalog_number : SharedList → SharedList
  add_catalog_number s = record s {
    form_ids = form.insert s.form_ids none;
    refs = s.refs ++ (none ∷ []);
  }

  unfoldable pub remove_catalog_number_at : ℕ → SharedList → SharedList
  remove_catalog_number_at i s = record s {
    form_ids = form.remove s.form_ids i;
    refs = splice_out i s.refs;
  }

  unfoldable pub set_catalog_label_at : ℕ → ℕ → SharedList → SharedList
  unfolding set_object
  set_catalog_label_at i label s =
      set_object i label
        (record s { form_ids = form.set_input s.form_ids i (some (s.id_of label)) })

  -- The founders of a label.
  unfoldable pub add_founder : FounderEntry → FounderList → FounderList
  unfolding contain
  add_founder artist s = if contain s.founders artist.id then s else record {
    form_ids = form.insert s.form_ids artist.id;
    founders = s.founders ++ (artist ∷ []);
  }

  unfoldable pub remove_founder_at : ℕ → FounderList → FounderList
  remove_founder_at i s = record {
    form_ids = form.remove s.form_ids i;
    founders = splice_out i s.founders;
  }

-- The effect on new ids: the entries, whose names are asked for, and the names when they arrive.
unfoldable pub sync_founders : (ℕ → Text) → List ℕ → FounderList → FounderList
sync_founders hash ids s = record s {
  founders = map (λ id. record { id = id; name = hash id }) ids;
}

unfoldable pub settle_founders : List (Option FounderEntry) → FounderList → FounderList
unfolding named
settle_founders results s = record s { founders = named s.founders results }
