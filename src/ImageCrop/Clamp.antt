-- ===== src/ImageCrop/Clamp.antt =====
-- `clampRectToBounds` as a whole: it ends, and the rectangle it returns lies inside.
use touhou_cloud_music_thcdb.Common.{
  ℕ, suc, ◌≡◌, refl, true, false, Option, none, some, inl, inr, if◌then◌else◌, arith, Bool-cases,
}
use touhou_cloud_music_thcdb.ImageCrop.Numbers.{Number, IsOrdered, is_finite, ◌<?◌}
use touhou_cloud_music_thcdb.ImageCrop.Geometry.{
  Rect, clamp_value, safe_max, clamp_position_to_bounds, create_fallback_rect, is_unusable, place,
  clamp_rect_to_bounds,
}
use touhou_cloud_music_thcdb.ImageCrop.Bounds.{
  IsUsable, IsInside, IsExactFor, IsExact, HasRoom, room, clamp_value_self, usable, not_unusable,
  positive_truthy,
}
use touhou_cloud_music_thcdb.ImageCrop.Placing.{
  place-IsInside, size_of, fit-eq-by_ratio, fit_by_ratio_self,
}

module _ {W : Type 0} ⦃n : Number W⦄ (ord : IsOrdered W) where
  fallback-IsUsable :
      (bounds : Rect W) (ratio : Option W)
      → IsUsable bounds
      → IsExactFor bounds ratio
      → IsUsable (create_fallback_rect bounds ratio)
  unfolding create_fallback_rect
  fallback-IsUsable bounds none b e = b
  fallback-IsUsable bounds (some ratio) b e =
      ground (arith, positive_truthy ord ratio e.ratio_finite e.ratio_positive)

  -- A position inside is kept.
  coordinate_self :
      (value start extent taken : W)
      → is_finite value ≡ true
      → is_finite start ≡ true
      → is_finite taken ≡ true
      → (extent <? taken) ≡ false
      → HasRoom start extent
      → (value <? start) ≡ false
      → (room start extent taken <? value) ≡ false
      → clamp_value value start (safe_max (room start extent taken) start) ≡ value
  coordinate_self value start extent taken fv fs ft fits h a c =
      let (finite, after) = h taken ft fits in
      rw finite (clamp_value_self ord value start (room start extent taken) fv fs finite after a c)

  place_self :
      (r bounds : Rect W) (ratio : Option W)
      → IsUsable r
      → IsUsable bounds
      → IsExact bounds ratio
      → IsInside bounds r
      → place r bounds ratio ≡ r
  unfolding place clamp_position_to_bounds
  place_self r bounds ratio u b e i =
      rw
        (
          fit-eq-by_ratio ord r bounds ratio u b,
          fit_by_ratio_self ord (size_of r) bounds ratio i.width_fits i.height_fits,
          coordinate_self r.x bounds.x bounds.width r.width u.x_finite b.x_finite u.width_finite
              i.width_fits e.across i.left i.right,
          coordinate_self r.y bounds.y bounds.height r.height u.y_finite b.y_finite u.height_finite
              i.height_fits e.down i.top i.bottom,
          not_unusable ord r u,
        )
        refl

  -- A rectangle that is no rectangle is replaced first.
  abbrev start_rect : Rect W → Rect W → Option W → Rect W
  start_rect r bounds ratio = if is_unusable r then create_fallback_rect bounds ratio else r

  clamp-eq-place :
      (k : ℕ) (r bounds : Rect W) (ratio : Option W)
      → IsUsable bounds
      → IsExactFor bounds ratio
      → clamp_rect_to_bounds (suc (suc k)) r bounds ratio
        ≡ some (place (start_rect r bounds ratio) bounds ratio)
  unfolding clamp_rect_to_bounds
  clamp-eq-place k r bounds ratio b e = elim (Bool-cases (is_unusable r)) [
    | inl bad ↦
        rw
          (
            not_unusable ord bounds b,
            bad,
            not_unusable ord (create_fallback_rect bounds ratio)
                (fallback-IsUsable bounds ratio b e),
          )
          refl
    | inr good ↦ rw (not_unusable ord bounds b, good) refl
  ]

  start-IsUsable :
      (r bounds : Rect W) (ratio : Option W)
      → IsUsable bounds
      → IsExactFor bounds ratio
      → IsUsable (start_rect r bounds ratio)
  start-IsUsable r bounds ratio b e = elim (Bool-cases (is_unusable r)) [
    | inl bad ↦ rw bad (fallback-IsUsable bounds ratio b e)
    | inr good ↦ rw good (usable ord r good)
  ]

  -- If the bounds are usable and rounding does not get in the way of their sums, differences and
  -- ratio: two calls of `clampRectToBounds` are enough for every rectangle, usable or not. The
  -- result is usable and has no edge outside the bounds, and it is the rectangle itself if that was
  -- usable and had none.
  pub clamp_rect-IsInside :
      (k : ℕ) (r bounds : Rect W) (ratio : Option W)
      → is_unusable bounds ≡ false
      → IsExact bounds ratio
      → (next : Rect W) × (clamp_rect_to_bounds (suc (suc k)) r bounds ratio ≡ some next)
        × (is_unusable next ≡ false)
        × IsInside bounds next
        × (is_unusable r ≡ false → IsInside bounds r → next ≡ r)
  clamp_rect-IsInside k r bounds ratio h e =
      let b = usable ord bounds h in
      let first = start_rect r bounds ratio in
      let u = start-IsUsable r bounds ratio b e.shape in
      let (used, inside) = place-IsInside ord first bounds ratio u b e in
      (
        place first bounds ratio,
        clamp-eq-place k r bounds ratio b e.shape,
        not_unusable ord (place first bounds ratio) used,
        inside,
        λ good i. rw good (place_self r bounds ratio (usable ord r good) b e i),
      )
