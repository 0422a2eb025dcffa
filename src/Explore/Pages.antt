-- ===== src/Explore/Pages.antt =====
-- What the pages ask the server and the key it is cached under, and where their controls lead.
use touhou_cloud_music_thcdb.Common.{
  ℕ, Option, none, some, Text, codes, nonempty, List, [], ◌∷◌, ℤ, if◌then◌else◌,
}
use touhou_cloud_music_thcdb.Explore.{
  OrderBy, SortBy, ArtistType, solo, multiple, unknown, ReleaseType, DisplayType, EventSearch,
  SongSearch, ArtistSearch, LabelSearch, ReleaseSearch, find_option,
}

-- The search of one of the pages.
pub data Search : Type 0 where
  events : EventSearch → Search
  songs : SongSearch → Search
  artists : ArtistSearch → Search
  labels : LabelSearch → Search
  releases : ReleaseSearch → Search

-- A part of a key. What is undefined is `null` in the text of the key.
pub data Part : Type 0 where
  undefined_part : Part
  number : ℕ → Part
  text : Text → Part
  numbers : List ℤ → Part
  order : OrderBy → Part
  sort_field : SortBy → Part
  artist_types : List ArtistType → Part
  release_type : ReleaseType → Part

pub record QueryKey : Type 0 where
  pub name : Text
  pub parts : List Part

abbrev pub part : {A : Type 0} → (A → Part) → Option A → Part
part f none = undefined_part
part f (some a) = f a

unfoldable pub event_key : EventSearch → QueryKey
event_key s = record {
  name = codes "event::explore";
  parts =
      number s.page
      ∷ part text s.start_date_from
      ∷ part text s.start_date_to
      ∷ part order s.order_by
      ∷ number s.limit
      ∷ [];
}

unfoldable pub song_key : SongSearch → QueryKey
song_key s = record {
  name = codes "song::explore";
  parts =
      number s.page
      ∷ part numbers s.language_id
      ∷ part sort_field s.sort_by
      ∷ part order s.order_by
      ∷ number s.limit
      ∷ [];
}

unfoldable pub artist_key : ArtistSearch → QueryKey
artist_key s = record {
  name = codes "artist::explore";
  parts =
      number s.page
      ∷ part artist_types s.artist_type
      ∷ part sort_field s.sort_by
      ∷ part order s.order_by
      ∷ number s.limit
      ∷ [];
}

unfoldable pub label_key : LabelSearch → QueryKey
label_key s = record {
  name = codes "label::explore";
  parts = number s.page ∷ part sort_field s.sort_by ∷ part order s.order_by ∷ number s.limit ∷ [];
}

unfoldable pub release_key : ReleaseSearch → QueryKey
release_key s = record {
  name = codes "release::explore";
  parts =
      number s.page
      ∷ part release_type s.release_type
      ∷ part sort_field s.sort_by
      ∷ part order s.order_by
      ∷ number s.limit
      ∷ [];
}

-- The key of the page that is open.
unfoldable pub query_key : Search → QueryKey
unfolding event_key song_key artist_key label_key release_key
query_key (events s) = event_key s
query_key (songs s) = song_key s
query_key (artists s) = artist_key s
query_key (labels s) = label_key s
query_key (releases s) = release_key s

-- The filter of a request.
pub data Filter : Type 0 where
  by_dates : Option Text → Option Text → Filter
  by_languages : Option (List ℤ) → Filter
  by_artist_types : Option (List ArtistType) → Filter
  of_labels : Filter
  by_release_types : Option (List ReleaseType) → Filter

pub record Request : Type 0 where
  pub limit : ℕ
  pub page : ℕ
  pub filter : Filter
  pub sort_field : Option SortBy
  pub sort_direction : Option OrderBy

abbrev pub as_list : {A : Type 0} → Option A → Option (List A)
as_list none = none
as_list (some a) = some (a ∷ [])

-- `queryFn`
unfoldable pub event_request : EventSearch → Request
event_request s = record {
  limit = s.limit;
  page = s.page;
  filter = by_dates s.start_date_from s.start_date_to;
  sort_field = none;
  sort_direction = s.order_by;
}

unfoldable pub song_request : SongSearch → Request
song_request s = record {
  limit = s.limit;
  page = s.page;
  filter = by_languages s.language_id;
  sort_field = s.sort_by;
  sort_direction = s.order_by;
}

unfoldable pub artist_request : ArtistSearch → Request
artist_request s = record {
  limit = s.limit;
  page = s.page;
  filter = by_artist_types s.artist_type;
  sort_field = s.sort_by;
  sort_direction = s.order_by;
}

unfoldable pub label_request : LabelSearch → Request
label_request s = record {
  limit = s.limit;
  page = s.page;
  filter = of_labels;
  sort_field = s.sort_by;
  sort_direction = s.order_by;
}

unfoldable pub release_request : ReleaseSearch → Request
release_request s = record {
  limit = s.limit;
  page = s.page;
  filter = by_release_types (as_list s.release_type);
  sort_field = s.sort_by;
  sort_direction = s.order_by;
}

-- The request of the page that is open.
unfoldable pub request : Search → Request
unfolding event_request song_request artist_request label_request release_request
request (events s) = event_request s
request (songs s) = song_request s
request (artists s) = artist_request s
request (labels s) = label_request s
request (releases s) = release_request s

-- `setPage`
unfoldable pub set_event_page : ℕ → EventSearch → EventSearch
set_event_page page s = record s { page = page }

unfoldable pub set_song_page : ℕ → SongSearch → SongSearch
set_song_page page s = record s { page = page }

unfoldable pub set_artist_page : ℕ → ArtistSearch → ArtistSearch
set_artist_page page s = record s { page = page }

unfoldable pub set_label_page : ℕ → LabelSearch → LabelSearch
set_label_page page s = record s { page = page }

unfoldable pub set_release_page : ℕ → ReleaseSearch → ReleaseSearch
set_release_page page s = record s { page = page }

unfoldable pub set_page : ℕ → Search → Search
unfolding set_event_page set_song_page set_artist_page set_label_page set_release_page
set_page page (events s) = events (set_event_page page s)
set_page page (songs s) = songs (set_song_page page s)
set_page page (artists s) = artists (set_artist_page page s)
set_page page (labels s) = labels (set_label_page page s)
set_page page (releases s) = releases (set_release_page page s)

-- The other controls of each page.
abbrev pub given_text : Text → Option Text
given_text value = if nonempty value then some value else none

unfoldable pub update_start_date_from : Text → EventSearch → EventSearch
update_start_date_from value s = record s { start_date_from = given_text value; page = 1 }

unfoldable pub update_start_date_to : Text → EventSearch → EventSearch
update_start_date_to value s = record s { start_date_to = given_text value; page = 1 }

unfoldable pub update_order_by : Option OrderBy → EventSearch → EventSearch
update_order_by value s = record s { order_by = value; page = 1 }

-- `Number.parseInt` of the text is an argument: `none` where it is NaN.
unfoldable pub update_language_id : Option ℤ → SongSearch → SongSearch
update_language_id parsed s = record s { language_id = as_list parsed; page = 1 }

unfoldable pub update_song_sort : SortBy → SongSearch → SongSearch
update_song_sort value s = record s { sort_by = some value; page = 1 }

unfoldable pub update_song_order : OrderBy → SongSearch → SongSearch
update_song_order value s = record s { order_by = some value; page = 1 }

unfoldable pub parse_artist_type : Text → Option (List ArtistType)
parse_artist_type value = as_list (
    find_option
      ((codes "Solo", solo) ∷ (codes "Multiple", multiple) ∷ (codes "Unknown", unknown) ∷ []) value)

unfoldable pub patch_artist_type : Text → ArtistSearch → ArtistSearch
unfolding parse_artist_type
patch_artist_type value s = record s { artist_type = parse_artist_type value; page = 1 }

unfoldable pub patch_artist_sort : Option SortBy → ArtistSearch → ArtistSearch
patch_artist_sort value s = record s { sort_by = value; page = 1 }

unfoldable pub patch_artist_order : Option OrderBy → ArtistSearch → ArtistSearch
patch_artist_order value s = record s { order_by = value; page = 1 }

unfoldable pub patch_label_sort : Option SortBy → LabelSearch → LabelSearch
patch_label_sort value s = record s { sort_by = value; page = 1 }

unfoldable pub patch_label_order : Option OrderBy → LabelSearch → LabelSearch
patch_label_order value s = record s { order_by = value; page = 1 }

unfoldable pub set_release_type : Option ReleaseType → ReleaseSearch → ReleaseSearch
set_release_type value s = record s { release_type = value; page = 1 }

unfoldable pub set_release_sort : Option SortBy → ReleaseSearch → ReleaseSearch
set_release_sort value s = record s { sort_by = value; page = 1 }

unfoldable pub set_release_order : Option OrderBy → ReleaseSearch → ReleaseSearch
set_release_order value s = record s { order_by = value; page = 1 }

unfoldable pub set_display_type : DisplayType → ReleaseSearch → ReleaseSearch
set_display_type value s = record s { display_type = value }
