-- ===== src/Search.antt =====
-- The search page: web/frontend/src/view/search/index.tsx. The six queries of a third-party cache
-- are arguments: whether each is loading, and the number of its items.
pub mod Tabs
pub mod Choice
mod Examples
use touhou_cloud_music_thcdb.Common.{
  ℕ, Bool, true, false, not, ◌&&◌, ◌||◌, Option, none, some, List, [], ◌∷◌, Text, codes, text_eq,
  trim, nonempty, length, ltb, or_else, if◌then◌else◌,
}

pub data SearchTab : Type 0 where
  artist : SearchTab
  event : SearchTab
  label : SearchTab
  release : SearchTab
  song : SearchTab
  tag : SearchTab

pub data SearchEntity : Type 0 where
  all_entities : SearchEntity
  only : SearchTab → SearchEntity

abbrev pub tab_name : SearchTab → Text
tab_name artist = codes "artist"
tab_name event = codes "event"
tab_name label = codes "label"
tab_name release = codes "release"
tab_name song = codes "song"
tab_name tag = codes "tag"

-- `isSearchTab`, with the tab that the text is.
unfoldable pub is_search_tab : Text → Option SearchTab
is_search_tab value =
    if text_eq value (codes "artist")
    then some artist
    else if text_eq value (codes "release")
    then some release
    else if text_eq value (codes "song")
    then some song
    else if text_eq value (codes "event")
    then some event
    else if text_eq value (codes "label")
    then some label
    else if text_eq value (codes "tag")
    then some tag
    else none

-- The parameters of the address that the page reads.
pub record Search : Type 0 where
  pub q : Option Text
  pub entity : Option Text
  pub tab : Option SearchTab

unfoldable pub term : Search → Text
term s = trim (or_else s.q [])

abbrev entity_of : Option SearchTab → SearchEntity
entity_of none = all_entities
entity_of (some t) = only t

unfoldable pub entity : Search → SearchEntity
unfolding is_search_tab
entity s = elim s.entity [
  | none ↦ all_entities
  | some value ↦
      if text_eq value (codes "all") then all_entities else entity_of (is_search_tab value)
]

unfoldable pub enabled : Search → Bool
enabled s = nonempty (term s)

unfoldable pub patch_search : SearchTab → Search → Search
patch_search t s = record s { tab = some t }

abbrev pub same_tab : SearchTab → SearchTab → Bool
same_tab artist artist = true
same_tab event event = true
same_tab label label = true
same_tab release release = true
same_tab song song = true
same_tab tag tag = true
same_tab _ _ = false

unfoldable pub is_enabled_tab : Search → SearchTab → Bool
is_enabled_tab s t =
    if not (enabled s)
    then false
    else elim (entity s) [ all_entities ↦ true | only e ↦ same_tab e t ]

-- What is read of a query.
pub record Query : Type 0 where
  pub is_loading : Bool
  pub count : ℕ
  pub has_next_page : Bool
  pub is_fetching_next_page : Bool

pub record Queries : Type 0 where
  pub artists : Query
  pub events : Query
  pub labels : Query
  pub releases : Query
  pub songs : Query
  pub tags : Query

abbrev pub query : Queries → SearchTab → Query
query qs artist = qs.artists
query qs event = qs.events
query qs label = qs.labels
query qs release = qs.releases
query qs song = qs.songs
query qs tag = qs.tags

unfoldable pub item_count : Queries → SearchTab → ℕ
item_count qs t = (query qs t).count

unfoldable pub is_loading_tab : Queries → SearchTab → Bool
is_loading_tab qs t = (query qs t).is_loading

unfoldable pub is_loading_any : Queries → Bool
is_loading_any qs =
    qs.artists.is_loading || qs.events.is_loading || qs.labels.is_loading || qs.releases.is_loading
    || qs.songs.is_loading || qs.tags.is_loading

abbrev pub search_tabs : List SearchTab
search_tabs = artist ∷ event ∷ label ∷ release ∷ song ∷ tag ∷ []

-- `.filter((tab) => itemCount(tab) > 0)`
unfoldable pub with_items : Queries → List SearchTab → List SearchTab
with_items qs [] = []
with_items qs (t ∷ tabs) =
    let rest = with_items qs tabs in if ltb 0 (item_count qs t) then t ∷ rest else rest

unfoldable pub visible_tabs : SearchEntity → Queries → List SearchTab
visible_tabs (only t) qs =
    if ltb 0 (item_count qs t) then t ∷ [] else if is_loading_tab qs t then t ∷ [] else []
visible_tabs all_entities qs = if is_loading_any qs then [] else with_items qs search_tabs

-- `Array.prototype.includes`
abbrev pub includes : List SearchTab → SearchTab → Bool
includes [] t = false
includes (u ∷ tabs) t = same_tab u t || includes tabs t

abbrev pub first_tab : List SearchTab → Option SearchTab
first_tab [] = none
first_tab (t ∷ tabs) = some t

abbrev pub requested_in : List SearchTab → Option SearchTab → Bool
requested_in visible none = false
requested_in visible (some t) = includes visible t

unfoldable pub active_tab : List SearchTab → Option SearchTab → Option SearchTab
active_tab visible requested =
    if requested_in visible requested then requested else first_tab visible

abbrev pub is_tab : Option SearchTab → SearchTab → Bool
is_tab none t = false
is_tab (some u) t = same_tab u t

-- Whether the end of the list of this tab asks for the next page when it comes into view.
unfoldable pub sentinel_enabled : Queries → Option SearchTab → SearchTab → Bool
sentinel_enabled qs active t =
    is_tab active t && (query qs t).has_next_page && not (query qs t).is_fetching_next_page

-- What the page shows.
pub data Shown : Type 0 where
  no_term : Shown
  searching : Shown
  no_results : Shown
  results : List SearchTab → SearchTab → Shown

unfoldable pub search_results : SearchEntity → Option SearchTab → Queries → Shown
search_results e requested qs = elim (active_tab (visible_tabs e qs) requested) [
  | some t ↦ results (visible_tabs e qs) t
  | none ↦ if not (is_loading_any qs) then no_results else searching
]

unfoldable pub search_page : Search → Queries → Shown
search_page s qs = if enabled s then search_results (entity s) s.tab qs else no_term
