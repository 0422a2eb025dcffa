-- ===== src/Pagination/Window.antt =====
-- The pages shown are a window of the pages there are.
use touhou_cloud_music_thcdb.Common.{
  ℕ, suc, ◌+◌, ◌-◌, ◌/◌, ◌≤◌, ◌<◌, min, max, ◌≡◌, ap, [], arith, leb, Bool-cases, inl, inr,
  if◌then◌else◌,
}
use touhou_cloud_music_thcdb.Pagination.{
  numbers, from_to, first_window, cut_window, build_nearby_pages,
}

abbrev window : ℕ → ℕ → ℕ → ℕ × ℕ
window current total count = cut_window total count (first_window current total count)

window_lem :
    (current total count : ℕ)
    → 1 ≤ count
    → 1 ≤ current
    → current ≤ total
    → let (start, end) = window current total count in
      (1 ≤ start)
      × (suc end - start ≡ min count total)
      × (start + min count total ≤ total + 1)
      × (start ≤ current)
      × (current < start + min count total)
window_lem current total count one low high = elim (Bool-cases (leb current (count / 2))) [
  | inl near ↦ rw near (ground arith)
  | inr far ↦ rw far (ground arith)
]

pages_of :
    (total start end n : ℕ)
    → 1 ≤ total
    → suc end - start ≡ n
    → (if leb total 0 then [] else from_to (start, end)) ≡ numbers start n
pages_of total start end n low e = ground (arith, ap (numbers start) e)

-- For a current page that exists, the pages shown are consecutive, they are as many as asked for
-- (at least one) or all there are, they lie between the first and the last, and the current page is
-- among them.
pub build_nearby_pages-window :
    (current total nearby_count : ℕ)
    → 1 ≤ current
    → current ≤ total
    → (start : ℕ) × (build_nearby_pages current total nearby_count
        ≡ numbers start (min (max 1 nearby_count) total))
      × (1 ≤ start)
      × (start + min (max 1 nearby_count) total ≤ total + 1)
      × (start ≤ current)
      × (current < start + min (max 1 nearby_count) total)
unfolding build_nearby_pages
build_nearby_pages-window current total n low high =
    let count = max 1 n in
    let (start, end) = window current total count in
    let (one, size, last, before, after) = window_lem current total count (omega arith) low high in
    (start, pages_of total start end (min count total) (omega arith) size, one, last, before, after)
