-- ===== src/Explore/Keys.antt =====
-- Replies are cached under keys that tell the requests apart.
use touhou_cloud_music_thcdb.Common.{◌≡◌, refl, Option, none, some, Text, List, ℤ, arith}
use touhou_cloud_music_thcdb.Explore.{OrderBy, SortBy, ArtistType, ReleaseType}
use touhou_cloud_music_thcdb.Explore.Pages.{
  Search, events, songs, artists, labels, releases, text, numbers, order, sort_field, artist_types,
  release_type, part, query_key, request,
}

part-text : (a b : Option Text) → part text a ≡ part text b → a ≡ b
part-text none none h = refl
part-text none (some b) h = cc
part-text (some a) none h = cc
part-text (some a) (some b) h = cc

part-order : (a b : Option OrderBy) → part order a ≡ part order b → a ≡ b
part-order none none h = refl
part-order none (some b) h = cc
part-order (some a) none h = cc
part-order (some a) (some b) h = cc

part-sort_field : (a b : Option SortBy) → part sort_field a ≡ part sort_field b → a ≡ b
part-sort_field none none h = refl
part-sort_field none (some b) h = cc
part-sort_field (some a) none h = cc
part-sort_field (some a) (some b) h = cc

part-numbers : (a b : Option (List ℤ)) → part numbers a ≡ part numbers b → a ≡ b
part-numbers none none h = refl
part-numbers none (some b) h = cc
part-numbers (some a) none h = cc
part-numbers (some a) (some b) h = cc

part-artist_types :
    (a b : Option (List ArtistType)) → part artist_types a ≡ part artist_types b → a ≡ b
part-artist_types none none h = refl
part-artist_types none (some b) h = cc
part-artist_types (some a) none h = cc
part-artist_types (some a) (some b) h = cc

part-release_type : (a b : Option ReleaseType) → part release_type a ≡ part release_type b → a ≡ b
part-release_type none none h = refl
part-release_type none (some b) h = cc
part-release_type (some a) none h = cc
part-release_type (some a) (some b) h = cc

-- Two searches on the pages that explore events, songs, artists, labels and releases whose replies
-- are cached under one key ask the server for the same.
pub query_key-request : (s t : Search) → query_key s ≡ query_key t → request s ≡ request t
unfolding query_key request
query_key-request (events s) (events t) h =
    let p : s.page ≡ t.page = cc in
    let l : s.limit ≡ t.limit = cc in
    let f = part-text s.start_date_from t.start_date_from (cc) in
    let u = part-text s.start_date_to t.start_date_to (cc) in
    let o = part-order s.order_by t.order_by (cc) in ground arith
query_key-request (songs s) (songs t) h =
    let p : s.page ≡ t.page = cc in
    let l : s.limit ≡ t.limit = cc in
    let f = part-numbers s.language_id t.language_id (cc) in
    let u = part-sort_field s.sort_by t.sort_by (cc) in
    let o = part-order s.order_by t.order_by (cc) in ground arith
query_key-request (artists s) (artists t) h =
    let p : s.page ≡ t.page = cc in
    let l : s.limit ≡ t.limit = cc in
    let f = part-artist_types s.artist_type t.artist_type (cc) in
    let u = part-sort_field s.sort_by t.sort_by (cc) in
    let o = part-order s.order_by t.order_by (cc) in ground arith
query_key-request (labels s) (labels t) h =
    let p : s.page ≡ t.page = cc in
    let l : s.limit ≡ t.limit = cc in
    let u = part-sort_field s.sort_by t.sort_by (cc) in
    let o = part-order s.order_by t.order_by (cc) in ground arith
query_key-request (releases s) (releases t) h =
    let p : s.page ≡ t.page = cc in
    let l : s.limit ≡ t.limit = cc in
    let f = part-release_type s.release_type t.release_type (cc) in
    let u = part-sort_field s.sort_by t.sort_by (cc) in
    let o = part-order s.order_by t.order_by (cc) in ground arith
query_key-request s t h = cc
