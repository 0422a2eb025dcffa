-- ===== src/Explore/Valid.antt =====
-- What the pages ever ask for.
use touhou_cloud_music_thcdb.Common.{
  ℕ, zero, suc, ◌≤◌, ◌≡◌, refl, ◌∙◌, Option, none, some, Text, codes, ℤ, pos, negsuc, arith,
}
use touhou_cloud_music_thcdb.Api.Values.{Json, null, bool, num, str, arr, obj, Fields}
use touhou_cloud_music_thcdb.Explore.{
  OrderBy, SortBy, ReleaseType, DisplayType, EventSearch, SongSearch, ArtistSearch, LabelSearch,
  ReleaseSearch, positive_or, member, default_limit, release_limit, validate_event, validate_song,
  validate_artist, validate_label, validate_release,
}
use touhou_cloud_music_thcdb.Explore.Pages.{
  Search, events, songs, artists, labels, releases, request, set_page, update_start_date_from,
  update_start_date_to, update_order_by, update_language_id, update_song_sort, update_song_order,
  patch_artist_type, patch_artist_sort, patch_artist_order, patch_label_sort, patch_label_order,
  set_release_type, set_release_sort, set_release_order, set_display_type,
}

-- A page that is opened at an address.
pub data Opened (address : Fields) : Search → Type 0 where
  events_opened : {s : EventSearch} → validate_event address ≡ some s → Opened address (events s)
  songs_opened : {s : SongSearch} → validate_song address ≡ some s → Opened address (songs s)
  artists_opened :
      {s : ArtistSearch} → validate_artist address ≡ some s → Opened address (artists s)
  labels_opened : {s : LabelSearch} → validate_label address ≡ some s → Opened address (labels s)
  releases_opened :
      {s : ReleaseSearch} → validate_release address ≡ some s → Opened address (releases s)

-- What a user does there; the page numbers that are offered begin at 1.
pub data Step : Search → Search → Type 0 where
  paged : {s : Search} (page : ℕ) → 1 ≤ page → Step s (set_page page s)
  from_date : {s : EventSearch} (v : Text) → Step (events s) (events (update_start_date_from v s))
  to_date : {s : EventSearch} (v : Text) → Step (events s) (events (update_start_date_to v s))
  event_order :
      {s : EventSearch} (v : Option OrderBy) → Step (events s) (events (update_order_by v s))
  language : {s : SongSearch} (v : Option ℤ) → Step (songs s) (songs (update_language_id v s))
  song_sort : {s : SongSearch} (v : SortBy) → Step (songs s) (songs (update_song_sort v s))
  song_order : {s : SongSearch} (v : OrderBy) → Step (songs s) (songs (update_song_order v s))
  artist_type : {s : ArtistSearch} (v : Text) → Step (artists s) (artists (patch_artist_type v s))
  artist_sort :
      {s : ArtistSearch} (v : Option SortBy) → Step (artists s) (artists (patch_artist_sort v s))
  artist_order :
      {s : ArtistSearch} (v : Option OrderBy) → Step (artists s) (artists (patch_artist_order v s))
  label_sort :
      {s : LabelSearch} (v : Option SortBy) → Step (labels s) (labels (patch_label_sort v s))
  label_order :
      {s : LabelSearch} (v : Option OrderBy) → Step (labels s) (labels (patch_label_order v s))
  release_type :
      {s : ReleaseSearch} (v : Option ReleaseType)
      → Step (releases s) (releases (set_release_type v s))
  release_sort :
      {s : ReleaseSearch} (v : Option SortBy) → Step (releases s) (releases (set_release_sort v s))
  release_order :
      {s : ReleaseSearch} (v : Option OrderBy)
      → Step (releases s) (releases (set_release_order v s))
  display :
      {s : ReleaseSearch} (v : DisplayType) → Step (releases s) (releases (set_display_type v s))

pub data Reach (s : Search) : Search → Type 0 where
  here : Reach s s
  next : {t u : Search} → Reach s t → Step t u → Reach s u

positive_or_pos :
    (fallback : ℕ) (value : Option Json) → 1 ≤ fallback → 1 ≤ positive_or fallback value
unfolding positive_or
positive_or_pos fallback none h = h
positive_or_pos fallback (some null) h = h
positive_or_pos fallback (some (bool b)) h = h
positive_or_pos fallback (some (num (pos zero))) h = h
positive_or_pos fallback (some (num (pos (suc n)))) h = omega arith
positive_or_pos fallback (some (num (negsuc n))) h = h
positive_or_pos fallback (some (str s)) h = h
positive_or_pos fallback (some (arr xs)) h = h
positive_or_pos fallback (some (obj fs)) h = h

-- Page and limit are at least 1.
abbrev pub IsAsked : Search → Type 0
IsAsked s = (1 ≤ (request s).page) × (1 ≤ (request s).limit)

Opened-IsAsked : (address : Fields) (s : Search) → Opened address s → IsAsked s
unfolding request validate_event validate_song validate_artist validate_label validate_release
Opened-IsAsked address (events s) (events_opened h) = ground (
  arith,
  positive_or_pos 1 (member address (codes "page")),
  positive_or_pos default_limit (member address (codes "limit")),
)
Opened-IsAsked address (songs s) (songs_opened h) = ground (
  arith,
  positive_or_pos 1 (member address (codes "page")),
  positive_or_pos default_limit (member address (codes "limit")),
)
Opened-IsAsked address (artists s) (artists_opened h) = ground (
  arith,
  positive_or_pos 1 (member address (codes "page")),
  positive_or_pos default_limit (member address (codes "limit")),
)
Opened-IsAsked address (labels s) (labels_opened h) = ground (
  arith,
  positive_or_pos 1 (member address (codes "page")),
  positive_or_pos default_limit (member address (codes "limit")),
)
Opened-IsAsked address (releases s) (releases_opened h) = ground (
  arith,
  positive_or_pos 1 (member address (codes "page")),
  positive_or_pos release_limit (member address (codes "limit")),
)

Step-IsAsked :
    {s t : Search} → Step s t → IsAsked s → IsAsked t × ((request t).limit ≡ (request s).limit)
unfolding request set_page update_start_date_from update_start_date_to update_order_by
    update_language_id update_song_sort update_song_order patch_artist_type patch_artist_sort
    patch_artist_order patch_label_sort patch_label_order set_release_type set_release_sort
    set_release_order set_display_type
Step-IsAsked (paged {s = events s} page h) a = ((h, a.1), refl)
Step-IsAsked (paged {s = songs s} page h) a = ((h, a.1), refl)
Step-IsAsked (paged {s = artists s} page h) a = ((h, a.1), refl)
Step-IsAsked (paged {s = labels s} page h) a = ((h, a.1), refl)
Step-IsAsked (paged {s = releases s} page h) a = ((h, a.1), refl)
Step-IsAsked (display v) a = (a, refl)
Step-IsAsked (from_date v) a = ((omega arith, a.1), refl)
Step-IsAsked (to_date v) a = ((omega arith, a.1), refl)
Step-IsAsked (event_order v) a = ((omega arith, a.1), refl)
Step-IsAsked (language v) a = ((omega arith, a.1), refl)
Step-IsAsked (song_sort v) a = ((omega arith, a.1), refl)
Step-IsAsked (song_order v) a = ((omega arith, a.1), refl)
Step-IsAsked (artist_type v) a = ((omega arith, a.1), refl)
Step-IsAsked (artist_sort v) a = ((omega arith, a.1), refl)
Step-IsAsked (artist_order v) a = ((omega arith, a.1), refl)
Step-IsAsked (label_sort v) a = ((omega arith, a.1), refl)
Step-IsAsked (label_order v) a = ((omega arith, a.1), refl)
Step-IsAsked (release_type v) a = ((omega arith, a.1), refl)
Step-IsAsked (release_sort v) a = ((omega arith, a.1), refl)
Step-IsAsked (release_order v) a = ((omega arith, a.1), refl)

Reach-IsAsked :
    {s t : Search} → Reach s t → IsAsked s → IsAsked t × ((request t).limit ≡ (request s).limit)
Reach-IsAsked here a = (a, refl)
Reach-IsAsked (next r st) a =
    let (b, l) = Reach-IsAsked r a in let (c, m) = Step-IsAsked st b in (c, m ∙ l)

-- A page that explores is opened at any address that its schema accepts: whatever is filtered,
-- sorted and shown there, and whichever pages from 1 on are chosen, in whatever order, the page and
-- the limit that are asked for are at least 1, and the limit is the one at first.
pub explored-IsAsked :
    (address : Fields) (s t : Search)
    → Opened address s
    → Reach s t
    → (1 ≤ (request t).page) × (1 ≤ (request t).limit) × ((request t).limit ≡ (request s).limit)
explored-IsAsked address s t o r =
    let (a, l) = Reach-IsAsked r (Opened-IsAsked address s o) in (a.0, a.1, l)
