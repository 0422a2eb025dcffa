-- ===== src/Explore.antt =====
-- The pages that explore events, songs, artists, labels and releases: the parameters of their
-- addresses, web/frontend/src/route/*/explore.tsx, and below what the pages do with them,
-- web/frontend/src/view/*/explore.tsx and view/release/explore/index.tsx. A number of an address is
-- a whole number.
pub mod Pages
pub mod Keys
pub mod Valid
mod Examples
use touhou_cloud_music_thcdb.Common.{
  ℕ, zero, suc, Option, none, some, Text, codes, text_eq, or_else, List, [], ◌∷◌, ℤ, pos, negsuc,
  if◌then◌else◌,
}
use touhou_cloud_music_thcdb.Api.Values.{Json, Items, null, num, str, arr, nil, cons, Fields, field}

pub data OrderBy : Type 0 where
  asc : OrderBy
  desc : OrderBy

pub data SortBy : Type 0 where
  created_at : SortBy
  handled_at : SortBy

pub data ArtistType : Type 0 where
  solo : ArtistType
  multiple : ArtistType
  unknown : ArtistType

pub data ReleaseType : Type 0 where
  album : ReleaseType
  ep : ReleaseType
  single : ReleaseType
  compilation : ReleaseType
  demo : ReleaseType
  other : ReleaseType

pub data DisplayType : Type 0 where
  wall : DisplayType
  list : DisplayType

pub record EventSearch : Type 0 where
  pub page : ℕ
  pub limit : ℕ
  pub start_date_from : Option Text
  pub start_date_to : Option Text
  pub order_by : Option OrderBy

pub record SongSearch : Type 0 where
  pub page : ℕ
  pub limit : ℕ
  pub language_id : Option (List ℤ)
  pub sort_by : Option SortBy
  pub order_by : Option OrderBy

pub record ArtistSearch : Type 0 where
  pub page : ℕ
  pub limit : ℕ
  pub artist_type : Option (List ArtistType)
  pub sort_by : Option SortBy
  pub order_by : Option OrderBy

pub record LabelSearch : Type 0 where
  pub page : ℕ
  pub limit : ℕ
  pub sort_by : Option SortBy
  pub order_by : Option OrderBy

pub record ReleaseSearch : Type 0 where
  pub page : ℕ
  pub limit : ℕ
  pub release_type : Option ReleaseType
  pub sort_by : Option SortBy
  pub order_by : Option OrderBy
  pub display_type : DisplayType

-- `v.fallback(v.pipe(v.number(), v.minValue(1)), fallback)`
unfoldable pub positive_or : ℕ → Option Json → ℕ
positive_or fallback (some (num (pos (suc n)))) = suc n
positive_or fallback value = fallback

-- `v.optional` of a schema: `none` outside is a value that is refused.
abbrev pub optional : {A : Type 0} → (Json → Option A) → Option Json → Option (Option A)
optional read none = some none
optional read (some value) = elim (read value) [ none ↦ none | some a ↦ some (some a) ]

-- `v.fallback(v.optional(schema), undefined)`
abbrev pub or_undefined : {A : Type 0} → (Json → Option A) → Option Json → Option A
or_undefined read none = none
or_undefined read (some value) = read value

unfoldable pub read_text : Json → Option Text
read_text (str s) = some s
read_text value = none

abbrev pub find_option : {A : Type 0} → List (Text × A) → Text → Option A
find_option [] s = none
find_option ((name, a) ∷ rest) s =
    let later = find_option rest s in if text_eq s name then some a else later

-- `v.picklist`
unfoldable pub pick : {A : Type 0} → List (Text × A) → Json → Option A
pick options (str s) = find_option options s
pick options value = none

abbrev pub read_order : Json → Option OrderBy
read_order value = pick ((codes "asc", asc) ∷ (codes "desc", desc) ∷ []) value

abbrev pub read_sort : Json → Option SortBy
read_sort value =
    pick ((codes "created_at", created_at) ∷ (codes "handled_at", handled_at) ∷ []) value

abbrev pub read_artist_type : Json → Option ArtistType
read_artist_type value =
    pick ((codes "Solo", solo) ∷ (codes "Multiple", multiple) ∷ (codes "Unknown", unknown) ∷ [])
      value

abbrev pub read_release_type : Json → Option ReleaseType
read_release_type value =
    pick
      ((codes "Album", album)
        ∷ (codes "Ep", ep)
        ∷ (codes "Single", single)
        ∷ (codes "Compilation", compilation)
        ∷ (codes "Demo", demo)
        ∷ (codes "Other", other)
        ∷ [])
      value

unfoldable pub read_number : Json → Option ℤ
read_number (num n) = some n
read_number value = none

-- `v.array` of a schema
infixl 5 ◌>>=◌
abbrev pub ◌>>=◌ : {A B : Type 0} → Option A → (A → Option B) → Option B
none >>= f = none
some a >>= f = f a

unfoldable pub read_items : {A : Type 0} → (Json → Option A) → Items → Option (List A)
read_items read nil = some []
read_items read (cons value items) = do
  a ← read value
  rest ← read_items read items
  some (a ∷ rest)

unfoldable pub read_array : {A : Type 0} → (Json → Option A) → Json → Option (List A)
read_array read (arr items) = read_items read items
read_array read value = none

abbrev pub default_limit : ℕ
default_limit = 10

abbrev pub release_limit : ℕ
release_limit = 20

abbrev pub member : Fields → Text → Option Json
member search k = field search k

-- `validateSearch` of each page: `none` is an error of the route.
unfoldable pub validate_event : Fields → Option EventSearch
validate_event search = do
  start_date_from ← optional read_text (member search (codes "start_date_from"))
  start_date_to ← optional read_text (member search (codes "start_date_to"))
  order_by ← optional read_order (member search (codes "order_by"))
  some (record {
    page = positive_or 1 (member search (codes "page"));
    limit = positive_or default_limit (member search (codes "limit"));
    start_date_from = start_date_from;
    start_date_to = start_date_to;
    order_by = order_by;
  })

unfoldable pub validate_song : Fields → Option SongSearch
validate_song search = do
  language_id ← optional (read_array read_number) (member search (codes "language_id"))
  some (record {
    page = positive_or 1 (member search (codes "page"));
    limit = positive_or default_limit (member search (codes "limit"));
    language_id = language_id;
    sort_by = or_undefined read_sort (member search (codes "sort_by"));
    order_by = or_undefined read_order (member search (codes "order_by"));
  })

unfoldable pub validate_artist : Fields → Option ArtistSearch
validate_artist search = do
  artist_type ← optional (read_array read_artist_type) (member search (codes "artist_type"))
  sort_by ← optional read_sort (member search (codes "sort_by"))
  order_by ← optional read_order (member search (codes "order_by"))
  some (record {
    page = positive_or 1 (member search (codes "page"));
    limit = positive_or default_limit (member search (codes "limit"));
    artist_type = artist_type;
    sort_by = sort_by;
    order_by = order_by;
  })

unfoldable pub validate_label : Fields → Option LabelSearch
validate_label search = do
  sort_by ← optional read_sort (member search (codes "sort_by"))
  order_by ← optional read_order (member search (codes "order_by"))
  some (record {
    page = positive_or 1 (member search (codes "page"));
    limit = positive_or default_limit (member search (codes "limit"));
    sort_by = sort_by;
    order_by = order_by;
  })

abbrev pub read_display : Json → Option DisplayType
read_display value = pick ((codes "wall", wall) ∷ (codes "list", list) ∷ []) value

unfoldable pub validate_release : Fields → Option ReleaseSearch
validate_release search = some (record {
  page = positive_or 1 (member search (codes "page"));
  limit = positive_or release_limit (member search (codes "limit"));
  release_type = or_undefined read_release_type (member search (codes "release_type"));
  sort_by = or_undefined read_sort (member search (codes "sort_by"));
  order_by = or_undefined read_order (member search (codes "order_by"));
  display_type = or_else (or_undefined read_display (member search (codes "display_type"))) wall;
})
