-- ===== src/Pagination.antt =====
-- The page numbers around the current one: web/frontend/src/component/Pagination.tsx. The number of
-- pages to show is a whole number, which is what every caller gives.
mod Window
mod Examples
use touhou_cloud_music_thcdb.Common.{
  ℕ, zero, suc, ◌+◌, ◌-◌, ◌/◌, min, max, List, [], ◌∷◌, leb, ltb, if◌then◌else◌,
}

-- n numbers from `start`
unfoldable pub numbers : ℕ → ℕ → List ℕ
numbers start zero = []
numbers start (suc n) = start ∷ numbers (suc start) n

-- The loop from `start` to `end`
abbrev pub from_to : ℕ × ℕ → List ℕ
from_to (start, end) = numbers start (suc end - start)

-- `start` and `end` before `end` is compared with `total`; the first test is `start < 1`.
abbrev first_window : ℕ → ℕ → ℕ → ℕ × ℕ
first_window current total count =
    if leb current (count / 2)
    then (1, min total count)
    else (current - count / 2, (current - count / 2) + count - 1)

abbrev cut_window : ℕ → ℕ → ℕ × ℕ → ℕ × ℕ
cut_window total count (start, end) =
    if ltb total end then (max 1 (suc total - count), total) else (start, end)

unfoldable pub build_nearby_pages : ℕ → ℕ → ℕ → List ℕ
unfolding numbers
build_nearby_pages current total nearby_count =
    let count = max 1 nearby_count in
    if leb total 0 then [] else from_to (cut_window total count (first_window current total count))
