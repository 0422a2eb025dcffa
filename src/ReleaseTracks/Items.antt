-- ===== src/ReleaseTracks/Items.antt =====
-- The items of the tracks: `TrackItem` of
-- web/frontend/src/view/release/edit/comp/TrackFieldItem.tsx. Each item has a store of its own for
-- the song and the artists it shows. `For` keeps an item as long as its index is visible, whichever
-- track is then at that index, and makes one for every index that becomes visible.
use touhou_cloud_music_thcdb.Common.{
  ℕ, ◌-◌, Option, none, some, List, [], ◌∷◌, ◌++◌, ◌==◌, Text, has, get_elem?, or_else,
  if◌then◌else◌,
}
use touhou_cloud_music_thcdb.ReleaseTracks.{
  FormArrays, Track, Tracks, visible_track_indices, on_remove_track,
}

-- The store of an item; songs and artists are their ids.
pub record TrackStore : Type 0 where
  pub song : Option ℕ
  pub artists : List ℕ

pub record Items : Type 0 where
  pub form_state : Tracks
  pub stores : List (ℕ × TrackStore)

abbrev pub no_store : TrackStore
no_store = record { song = none; artists = [] }

unfoldable pub store_at : List (ℕ × TrackStore) → ℕ → Option TrackStore
store_at [] i = none
store_at ((j, s) ∷ stores) i = if j == i then some s else store_at stores i

-- The store of a new item: `initTracks?.[index]`.
abbrev pub init_store : List TrackStore → ℕ → TrackStore
init_store init i = or_else (get_elem? init i) no_store

-- The items of these indices: those that there are already, and new ones.
unfoldable pub items_for : List TrackStore → List (ℕ × TrackStore) → List ℕ → List (ℕ × TrackStore)
items_for init stores [] = []
items_for init stores (i ∷ indices) =
    (i, or_else (store_at stores i) (init_store init i)) ∷ items_for init stores indices

-- `For` after a change of the form.
unfoldable pub render : List TrackStore → Items → Items
render init s = record s { stores = items_for init s.stores (visible_track_indices s.form_state) }

-- A write to the store of an item.
unfoldable pub set_store : ℕ → TrackStore → List (ℕ × TrackStore) → List (ℕ × TrackStore)
set_store i new [] = []
set_store i new ((j, s) ∷ stores) =
    let rest = set_store i new stores in if j == i then (j, new) ∷ stores else (j, s) ∷ rest

-- `toSpliced(index, 1)`
unfoldable pub splice_out : ℕ → List ℕ → List ℕ
splice_out n [] = []
splice_out n (x ∷ xs) = let rest = splice_out (n - 1) xs in if n == 0 then xs else x ∷ rest

module _ (form : FormArrays) (show : ℕ → Text) where
  -- `setInput` of a member of the track at an index.
  unfoldable pub set_track : ℕ → (Track → Track) → Tracks → Tracks
  set_track i change s = elim (get_elem? s.tracks i) [
    | none ↦ s
    | some t ↦ record s { tracks = form.set_input s.tracks i (change t) }
  ]

  unfoldable pub on_remove_item : List TrackStore → ℕ → Items → Items
  on_remove_item init i s =
      render init (record s { form_state = on_remove_track form show i s.form_state })

  unfoldable pub on_select_song : ℕ → ℕ → Items → Items
  on_select_song i song s = elim (store_at s.stores i) [
    | none ↦ s
    | some store ↦ record {
      form_state = set_track i (λ t. record t { song_id = some song }) s.form_state;
      stores = set_store i (record store { song = some song }) s.stores;
    }
  ]

  -- `setTrack` comes first, so that the ids that are read from the store have the new one already.
  unfoldable pub on_add_artist : ℕ → ℕ → Items → Items
  on_add_artist i artist s = elim (store_at s.stores i) [
    | none ↦ s
    | some store ↦
        if has store.artists artist
        then s
        else let next = store.artists ++ (artist ∷ []) in
          let next_ids = next ++ (artist ∷ []) in
          record {
            form_state = set_track i (λ t. record t { artists = next_ids }) s.form_state;
            stores = set_store i (record store { artists = next }) s.stores;
          }
  ]

  unfoldable pub on_remove_artist_at : ℕ → ℕ → Items → Items
  on_remove_artist_at i index s = elim (store_at s.stores i) [
    | none ↦ s
    | some store ↦
        let next = splice_out index store.artists in
        record {
          form_state = set_track i (λ t. record t { artists = next }) s.form_state;
          stores = set_store i (record store { artists = next }) s.stores;
        }
  ]
