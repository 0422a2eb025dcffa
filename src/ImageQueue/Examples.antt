-- ===== src/ImageQueue/Examples.antt =====
-- Two cached lists that share an entry.
use touhou_cloud_music_thcdb.Common.{◌≡◌, refl, none, some, List, [], ◌∷◌, codes, text_eq, ℤ, pos}
use touhou_cloud_music_thcdb.Api.Values.{Json, Items, nil, cons, num, arr, obj, end, entry, prop}
use touhou_cloud_music_thcdb.Ports.{is_record}
use touhou_cloud_music_thcdb.ImageQueue.{
  all_ids, cached_neighbor, extract_infinite_query_ids, pages_ids, item_ids, image_path,
  strip_slashes,
}
use touhou_cloud_music_thcdb.ImageQueue.Cached.{IsCached}
use touhou_cloud_music_thcdb.ImageQueue.Neighbor.{IsNeighbor, cached_neighbor-IsNeighbor}

abbrev item : ℤ → Json
item id = obj (entry (codes "id") (num id) end)

abbrev page : Items → Json
page items = obj (entry (codes "items") (arr items) end)

abbrev pages : Items → Json
pages ps = obj (entry (codes "pages") (arr ps) end)

abbrev cached : List Json
cached =
    pages (cons (page (cons (item (pos 3)) (cons (item (pos 7)) nil))) nil)
    ∷ pages (cons (page (cons (item (pos 7)) (cons (item (pos 5)) nil))) nil)
    ∷ []

found_ids : all_ids cached ≡ pos 3 ∷ pos 7 ∷ pos 7 ∷ pos 5 ∷ []
unfolding all_ids extract_infinite_query_ids pages_ids item_ids is_record prop text_eq
found_ids = refl

slashes_go :
    image_path (record {
      created_by = 1;
      image = some (record { directory = codes "a//"; filename = codes "b" });
      artist = none;
      release = none;
    })
    ≡ some (codes "a/b")
unfolding image_path strip_slashes
slashes_go = refl

cached_neighbor-IsNeighbor_example :
    IsNeighbor (pos 5) (λ x. IsCached x cached) (cached_neighbor (pos 5) cached)
cached_neighbor-IsNeighbor_example = cached_neighbor-IsNeighbor (pos 5) cached
