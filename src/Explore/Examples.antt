-- ===== src/Explore/Examples.antt =====
-- The songs, opened at an address with a page that does not exist.
use touhou_cloud_music_thcdb.Common.{◌≤◌, ◌≡◌, refl, none, some, codes, text_eq, pos, arith}
use touhou_cloud_music_thcdb.Api.Values.{Fields, num, str, end, entry}
use touhou_cloud_music_thcdb.Explore.{
  SongSearch, desc, created_at, validate_song, positive_or, pick,
}
use touhou_cloud_music_thcdb.Explore.Pages.{Search, songs, request, set_page, update_song_sort}
use touhou_cloud_music_thcdb.Explore.Keys.{query_key-request}
use touhou_cloud_music_thcdb.Explore.Valid.{
  songs_opened, here, next, paged, song_sort, explored-IsAsked,
}

abbrev address : Fields
address =
    entry (codes "page") (num (pos 0))
      (entry (codes "limit") (num (pos 25)) (entry (codes "order_by") (str (codes "desc")) end))

abbrev first_songs : SongSearch
first_songs = record {
  page = 1;
  limit = 25;
  language_id = none;
  sort_by = none;
  order_by = some desc;
}

address_is_read : validate_song address ≡ some first_songs
unfolding validate_song text_eq positive_or pick
address_is_read = refl

abbrev sorted_songs : Search
sorted_songs = songs (update_song_sort created_at (record first_songs { page = 4 }))

explored-IsAsked_example :
    (1 ≤ (request sorted_songs).page)
    × (1 ≤ (request sorted_songs).limit)
    × ((request sorted_songs).limit ≡ (request (songs first_songs)).limit)
unfolding set_page
explored-IsAsked_example =
    explored-IsAsked address (songs first_songs) sorted_songs (songs_opened address_is_read)
      (next (next here (paged 4 (omega arith))) (song_sort created_at))

-- The same search, once typed and once reached from the first page.
query_key-request_example :
    request (set_page 2 (songs first_songs)) ≡ request (songs (record first_songs { page = 2 }))
unfolding set_page
query_key-request_example =
    query_key-request (set_page 2 (songs first_songs)) (songs (record first_songs { page = 2 }))
      refl
