-- ===== src/Search/Examples.antt =====
-- A search for "reimu" in everything.
use touhou_cloud_music_thcdb.Common.{true, false, some, none, codes}
use touhou_cloud_music_thcdb.Search.{Search, Query, Queries, all_entities, song, search_results}
use touhou_cloud_music_thcdb.Search.Tabs.{Shows, search_results-Shows}

abbrev found : Query
found = record {
  is_loading = false;
  count = 2;
  has_next_page = true;
  is_fetching_next_page = false;
}

abbrev nothing : Query
nothing = record {
  is_loading = false;
  count = 0;
  has_next_page = false;
  is_fetching_next_page = false;
}

abbrev queries : Queries
queries = record {
  artists = found;
  events = nothing;
  labels = nothing;
  releases = found;
  songs = nothing;
  tags = nothing;
}

abbrev reimu : Search
reimu = record { q = some (codes " reimu"); entity = none; tab = some song }

search_results-Shows_example :
    Shows all_entities (some song) queries (search_results all_entities (some song) queries)
search_results-Shows_example = search_results-Shows all_entities (some song) queries
