-- ===== src/ReleaseTracks/Examples.antt =====
-- A form whose arrays are lists.
use touhou_cloud_music_thcdb.Common.{
  ℕ, zero, suc, ◌≡◌, refl, ap, inl, inr, List, [], ◌∷◌, ◌++◌, Text, codes, length, get_elem?, In,
  arith, some, none,
}
use touhou_cloud_music_thcdb.ReleaseTracks.{
  FormArrays, Track, Tracks, unnamed, on_add_track, on_add_disc, on_next_disc,
}
use touhou_cloud_music_thcdb.ReleaseTracks.Items.{
  TrackStore, Items, items_for, store_at, on_remove_item, on_add_artist,
}
use touhou_cloud_music_thcdb.ReleaseTracks.Artists.{stale_item}
use touhou_cloud_music_thcdb.ReleaseTracks.Selection.{
  FormLaws, IsValid, here, then_step, add_track, add_disc, next_disc, Reach-IsValid,
}

abbrev remove_at : {A : Type 0} → List A → ℕ → List A
remove_at [] i = []
remove_at (x ∷ xs) zero = xs
remove_at (x ∷ xs) (suc i) = x ∷ remove_at xs i

abbrev set_at : {A : Type 0} → List A → ℕ → A → List A
set_at [] i y = []
set_at (x ∷ xs) zero y = y ∷ xs
set_at (x ∷ xs) (suc i) y = x ∷ set_at xs i y

abbrev lists : FormArrays
lists = record { insert = λ xs x. xs ++ (x ∷ []); remove = remove_at; set_input = set_at }

remove_at-In : {A : Type 0} (xs : List A) (i : ℕ) (x : A) → In x (remove_at xs i) → In x xs
remove_at-In [] i x h = h
remove_at-In (y ∷ xs) zero x h = inr h
remove_at-In (y ∷ xs) (suc i) x (inl e) = inl e
remove_at-In (y ∷ xs) (suc i) x (inr h) = inr (remove_at-In xs i x h)

set_at-length : {A : Type 0} (xs : List A) (i : ℕ) (x : A) → length (set_at xs i x) ≡ length xs
set_at-length [] i x = refl
set_at-length (y ∷ xs) zero x = refl
set_at-length (y ∷ xs) (suc i) x = ap suc (set_at-length xs i x)

set_at-get :
    {A : Type 0} (xs : List A) (i : ℕ) (x y : A)
    → get_elem? xs i ≡ some x
    → get_elem? (set_at xs i y) i ≡ some y
set_at-get [] i x y h = cc
set_at-get (z ∷ xs) zero x y h = refl
set_at-get (z ∷ xs) (suc i) x y h = set_at-get xs i x y h

lists-FormLaws : FormLaws lists
lists-FormLaws = record {
  insert-append = λ xs x. refl;
  remove-In = remove_at-In;
  set_input-length = λ xs i x h. set_at-length xs i x;
  remove-head = λ x xs. refl;
  set_input-get = set_at-get;
}

abbrev show : ℕ → Text
show n = codes "n"

abbrev empty : Tracks
empty = record { discs = []; tracks = []; selected_disc = 0 }

abbrev edited : Tracks
edited = on_next_disc lists show (on_add_disc lists show (on_add_track lists show empty))

second_disc_is_next : edited.selected_disc ≡ 0
unfolding on_next_disc on_add_disc on_add_track
second_disc_is_next = refl

Reach-IsValid_example : IsValid edited
Reach-IsValid_example =
    Reach-IsValid lists show lists-FormLaws
      (then_step (then_step (then_step here add_track) add_disc) next_disc) empty-IsValid
  where
    empty-IsValid : IsValid empty
    empty-IsValid = (omega arith, λ t k. absurd k)

abbrev two_discs : Tracks
two_discs = record { discs = unnamed ∷ unnamed ∷ []; tracks = []; selected_disc = 1 }

abbrev track : List ℕ → Track
track artists = record { disc_index = 0; song_id = none; artists = artists }

abbrev shown : List TrackStore
shown = record { song = none; artists = 1 ∷ [] } ∷ record { song = none; artists = 2 ∷ [] } ∷ []

abbrev two_items : Items
two_items = record {
  form_state = record {
    discs = unnamed ∷ [];
    tracks = track (1 ∷ []) ∷ track (2 ∷ []) ∷ [];
    selected_disc = 0;
  };
  stores = items_for shown [] (0 ∷ 1 ∷ []);
}

stale_item_example :
    let done = on_add_artist lists show 0 3 (on_remove_item lists show shown 0 two_items) in
    get_elem? done.form_state.tracks 0 ≡ some (track (1 ∷ 3 ∷ 3 ∷ []))
unfolding items_for store_at
stale_item_example =
    stale_item lists show lists-FormLaws shown two_items (track (1 ∷ [])) (track (2 ∷ [])) []
      (record { song = none; artists = 1 ∷ [] }) 3 refl refl refl refl
