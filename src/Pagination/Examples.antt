-- ===== src/Pagination/Examples.antt =====
-- Windows of pages.
use touhou_cloud_music_thcdb.Common.{ℕ, ◌+◌, ◌≤◌, ◌<◌, min, max, ◌≡◌, refl, [], ◌∷◌, arith}
use touhou_cloud_music_thcdb.Pagination.{numbers, build_nearby_pages}
use touhou_cloud_music_thcdb.Pagination.Window.{build_nearby_pages-window}

near_the_end : build_nearby_pages 9 10 7 ≡ 4 ∷ 5 ∷ 6 ∷ 7 ∷ 8 ∷ 9 ∷ 10 ∷ []
unfolding build_nearby_pages
near_the_end = refl

build_nearby_pages-window_example :
    (start : ℕ) × (build_nearby_pages 9 10 7 ≡ numbers start (min (max 1 7) 10))
    × (1 ≤ start)
    × (start + min (max 1 7) 10 ≤ 10 + 1)
    × (start ≤ 9)
    × (9 < start + min (max 1 7) 10)
build_nearby_pages-window_example = build_nearby_pages-window 9 10 7 (omega arith) (omega arith)
