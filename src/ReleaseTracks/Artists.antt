-- ===== src/ReleaseTracks/Artists.antt =====
-- The artists that an item shows and those of the track in the form.
use touhou_cloud_music_thcdb.Common.{
  ℕ, ◌≡◌, refl, sym, ap, ◌∙◌, inl, inr, true, false, some, List, [], ◌∷◌, ◌++◌, ◌==◌, Text, has,
  get_elem?, arith, Bool-cases, if◌then◌else◌,
}
use touhou_cloud_music_thcdb.ReleaseTracks.{
  FormArrays, Track, Tracks, visible_track_indices, on_remove_track, indices_from,
}
use touhou_cloud_music_thcdb.ReleaseTracks.Selection.{FormLaws}
use touhou_cloud_music_thcdb.ReleaseTracks.Items.{
  TrackStore, Items, store_at, items_for, render, set_store, set_track, on_remove_item,
  on_add_artist,
}

same_index : (i : ℕ) → (i == i) ≡ true
same_index i = ground arith

store_at-set_store :
    (i : ℕ) (new old : TrackStore) (stores : List (ℕ × TrackStore))
    → store_at stores i ≡ some old
    → store_at (set_store i new stores) i ≡ some new
unfolding store_at set_store
store_at-set_store i new old [] h = cc
store_at-set_store i new old ((j, s) ∷ stores) h = elim (Bool-cases (j == i)) [
  | inl e ↦ rw (e, e) refl
  | inr e ↦
      rw (e, e)
        (store_at-set_store i new old stores
          (ap (λ b. if b then some s else store_at stores i) (sym e) ∙ h))
]

module _ (form : FormArrays) (show : ℕ → Text) (laws : FormLaws form) where
  set_track-get :
      (i : ℕ) (change : Track → Track) (s : Tracks) (t : Track)
      → get_elem? s.tracks i ≡ some t
      → get_elem? (set_track form show i change s).tracks i ≡ some (change t)
  unfolding set_track
  set_track-get i change s t k = simp (set_track, k) (laws.set_input-get s.tracks i t (change t) k)

  add_artist-tracks :
      (i artist : ℕ) (s : Items) (store : TrackStore) (t : Track)
      → store_at s.stores i ≡ some store
      → get_elem? s.form_state.tracks i ≡ some t
      → has store.artists artist ≡ false
      → let done = on_add_artist form show i artist s in
        let next = store.artists ++ (artist ∷ []) in
        (get_elem? done.form_state.tracks i ≡ some (record t { artists = next ++ (artist ∷ []) }))
        × (store_at done.stores i ≡ some (record store { artists = next }))
  unfolding on_add_artist
  add_artist-tracks i artist s store t h k n =
      let next = store.artists ++ (artist ∷ []) in
      simp (on_add_artist, h, n)
        (
          set_track-get i (λ t. record t { artists = next ++ (artist ∷ []) }) s.form_state t k,
          store_at-set_store i (record store { artists = next }) store s.stores h,
        )

  store_at-items_for :
      (init : List TrackStore) (stores : List (ℕ × TrackStore)) (i : ℕ) (store : TrackStore)
      (indices : List ℕ)
      → store_at stores i ≡ some store
      → store_at (items_for init stores (i ∷ indices)) i ≡ some store
  unfolding items_for store_at
  store_at-items_for init stores i store indices h = rw (same_index i, h) refl

  -- If a removal of the first track of the form is that of a list and an item that is set is read
  -- back: the first two tracks of a release are on the selected disc, the first is removed, and an
  -- artist is added to the item that is then first. The artists that the removed track showed, with
  -- the new one twice, are written into the track that has taken its place.
  pub stale_item :
      (init : List TrackStore) (s : Items) (a b : Track) (rest : List Track) (store : TrackStore)
      (artist : ℕ)
      → s.form_state.tracks ≡ a ∷ b ∷ rest
      → b.disc_index ≡ s.form_state.selected_disc
      → store_at s.stores 0 ≡ some store
      → has store.artists artist ≡ false
      → let done = on_add_artist form show 0 artist (on_remove_item form show init 0 s) in
        get_elem? done.form_state.tracks 0
        ≡ some (record b { artists = (store.artists ++ (artist ∷ [])) ++ (artist ∷ []) })
  unfolding on_remove_item render on_remove_track visible_track_indices
  stale_item init s a b rest store artist h d k n =
      let removed = on_remove_item form show init 0 s in
      let gone : form.remove s.form_state.tracks 0 ≡ b ∷ rest =
        ap (λ l. form.remove l 0) h ∙ laws.remove-head a (b ∷ rest) in
      let kept =
        store_at-items_for init s.stores 0 store (indices_from 1 s.form_state.selected_disc rest)
          k in
      (add_artist-tracks 0 artist removed store b
        (rw (gone, d, same_index s.form_state.selected_disc) kept) (rw gone refl) n).0
