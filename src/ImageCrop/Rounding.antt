-- ===== src/ImageCrop/Rounding.antt =====
-- Where rounding does get in the way: the place that is left across is before the bounds.
use touhou_cloud_music_thcdb.Common.{ℕ, suc, ◌≡◌, refl, true, false, none, some, arith}
use touhou_cloud_music_thcdb.ImageCrop.Numbers.{Number, IsOrdered, is_finite, ◌<?◌}
use touhou_cloud_music_thcdb.ImageCrop.Geometry.{
  Rect, clamp_value, safe_max, is_unusable, clamp_rect_to_bounds, place, fit_freely, fit_by_ratio,
  clamp_position_to_bounds,
}
use touhou_cloud_music_thcdb.ImageCrop.Bounds.{IsUsable, room, usable, not_unusable}
use touhou_cloud_music_thcdb.ImageCrop.Placing.{size_of, fit-eq-by_ratio}

module _ {W : Type 0} ⦃n : Number W⦄ (ord : IsOrdered W) where
  clamp_value-finite :
      (value low high : W)
      → is_finite value ≡ true
      → is_finite low ≡ true
      → is_finite (clamp_value value low (safe_max high low)) ≡ true
  unfolding clamp_value
  clamp_value-finite value low high fv fl = ground arith

  clamp_value-reversed :
      (value low high : W)
      → is_finite value ≡ true
      → is_finite low ≡ true
      → is_finite high ≡ true
      → (high <? low) ≡ true
      → clamp_value value low (safe_max high low) ≡ value
  unfolding clamp_value
  clamp_value-reversed value low high fv fl fh h = ground arith

  -- The rectangle before its last test.
  abbrev placed : Rect W → Rect W → Rect W
  placed r bounds =
      let s = fit_freely (size_of r) bounds in
      let p = clamp_position_to_bounds (record { x = r.x; y = r.y }) s bounds in
      record { x = p.x; y = p.y; width = s.width; height = s.height }

  placed-IsUsable : (r bounds : Rect W) → IsUsable r → IsUsable bounds → IsUsable (placed r bounds)
  unfolding clamp_position_to_bounds fit_freely
  placed-IsUsable r bounds u b =
      let s = fit_freely (size_of r) bounds in
      ground (
        arith,
        clamp_value-finite r.x bounds.x (room bounds.x bounds.width s.width),
        clamp_value-finite r.y bounds.y (room bounds.y bounds.height s.height),
      )

  clamp-eq-placed :
      (k : ℕ) (r bounds : Rect W)
      → is_unusable r ≡ false
      → is_unusable bounds ≡ false
      → clamp_rect_to_bounds (suc k) r bounds none ≡ some (placed r bounds)
  unfolding clamp_rect_to_bounds place fit_by_ratio
  clamp-eq-placed k r bounds good bad =
      let u = usable ord r good in
      let b = usable ord bounds bad in
      rw
        (
          bad,
          good,
          fit-eq-by_ratio ord r bounds none u b,
          not_unusable ord (placed r bounds) (placed-IsUsable r bounds u b),
        )
        refl

  -- If the place left across the bounds by their whole width is, rounded, finite and before their
  -- left edge: a usable rectangle that is wider than the bounds gets their width and keeps its left
  -- edge, wherever that is, if no ratio is asked.
  pub clamp_rect-rounded :
      (k : ℕ) (r bounds : Rect W)
      → is_unusable r ≡ false
      → is_unusable bounds ≡ false
      → (bounds.width <? r.width) ≡ true
      → is_finite (room bounds.x bounds.width bounds.width) ≡ true
      → (room bounds.x bounds.width bounds.width <? bounds.x) ≡ true
      → (next : Rect W) × (clamp_rect_to_bounds (suc k) r bounds none ≡ some next)
        × (next.x ≡ r.x)
        × (next.width ≡ bounds.width)
  unfolding clamp_position_to_bounds fit_freely
  clamp_rect-rounded k r bounds good bad wide finite before =
      let u = usable ord r good in
      let b = usable ord bounds bad in
      (
        placed r bounds,
        clamp-eq-placed k r bounds good bad,
        rw wide (
            clamp_value-reversed r.x bounds.x (room bounds.x bounds.width bounds.width) u.x_finite
              b.x_finite finite before),
        rw wide refl,
      )
