-- ===== src/ImageCrop/Placing.antt =====
-- Where the rectangle comes to lie.
use touhou_cloud_music_thcdb.Common.{◌≡◌, refl, true, false, Option, none, some, arith}
use touhou_cloud_music_thcdb.ImageCrop.Numbers.{Number, IsOrdered, is_finite, ◌<?◌}
use touhou_cloud_music_thcdb.ImageCrop.Geometry.{
  Rect, Size, clamp_value, fit_to_ratio, fit_freely, fit_by_ratio, fit_size_to_bounds, safe_max,
  clamp_position_to_bounds, place,
}
use touhou_cloud_music_thcdb.ImageCrop.Bounds.{
  IsUsable, IsFitting, IsInside, IsExactRatio, IsExactFor, IsExact, HasRoom, room, clamp_value_lem,
  not_unusable, positive_truthy,
}

module _ {W : Type 0} ⦃n : Number W⦄ where
  abbrev pub size_of : Rect W → Size W
  size_of r = record { width = r.width; height = r.height }

  module _ (ord : IsOrdered W) where
    fit_freely-IsFitting :
        (r bounds : Rect W)
        → IsUsable r
        → IsUsable bounds
        → IsFitting bounds (fit_freely (size_of r) bounds)
    unfolding fit_freely
    fit_freely-IsFitting r bounds u b =
        ground (arith, ord.lt_irrefl bounds.width, ord.lt_irrefl bounds.height)

    fit_to_ratio-IsFitting :
        (r bounds : Rect W) (ratio : W)
        → IsUsable r
        → IsUsable bounds
        → IsExactRatio bounds ratio
        → IsFitting bounds (fit_to_ratio (size_of r) bounds ratio)
    unfolding fit_to_ratio
    fit_to_ratio-IsFitting r bounds ratio u b e =
        ground (arith, ord.lt_irrefl bounds.width, ord.lt_irrefl bounds.height)

    fit_by_ratio-IsFitting :
        (r bounds : Rect W) (ratio : Option W)
        → IsUsable r
        → IsUsable bounds
        → IsExactFor bounds ratio
        → IsFitting bounds (fit_by_ratio (size_of r) bounds ratio)
    unfolding fit_by_ratio
    fit_by_ratio-IsFitting r bounds none u b e = fit_freely-IsFitting r bounds u b
    fit_by_ratio-IsFitting r bounds (some ratio) u b e =
        rw ((positive_truthy ord ratio e.ratio_finite e.ratio_positive).0, e.ratio_positive)
          (fit_to_ratio-IsFitting r bounds ratio u b e)

    pub fit-eq-by_ratio :
        (r bounds : Rect W) (ratio : Option W)
        → IsUsable r
        → IsUsable bounds
        → fit_size_to_bounds (size_of r) bounds ratio ≡ fit_by_ratio (size_of r) bounds ratio
    unfolding fit_size_to_bounds
    fit-eq-by_ratio r bounds ratio u b =
        rw (b.width_finite, b.height_finite, u.width_finite, u.height_finite) refl

    pub fit-IsFitting :
        (r bounds : Rect W) (ratio : Option W)
        → IsUsable r
        → IsUsable bounds
        → IsExactFor bounds ratio
        → IsFitting bounds (fit_size_to_bounds (size_of r) bounds ratio)
    fit-IsFitting r bounds ratio u b e =
        rw (fit-eq-by_ratio r bounds ratio u b) (fit_by_ratio-IsFitting r bounds ratio u b e)

    pub fit_by_ratio_self :
        (s : Size W) (bounds : Rect W) (ratio : Option W)
        → (bounds.width <? s.width) ≡ false
        → (bounds.height <? s.height) ≡ false
        → fit_by_ratio s bounds ratio ≡ s
    unfolding fit_by_ratio fit_freely fit_to_ratio
    fit_by_ratio_self s bounds none w h = ground arith
    fit_by_ratio_self s bounds (some ratio) w h = ground arith

    -- The size of what is placed, of one that fits.
    abbrev positioned : Rect W → Rect W → Size W → Rect W
    positioned r bounds s =
        let p = clamp_position_to_bounds (record { x = r.x; y = r.y }) s bounds in
        record { x = p.x; y = p.y; width = s.width; height = s.height }

    coordinate :
        (value start extent taken : W)
        → is_finite value ≡ true
        → is_finite start ≡ true
        → is_finite taken ≡ true
        → (extent <? taken) ≡ false
        → HasRoom start extent
        → let v = clamp_value value start (safe_max (room start extent taken) start) in
          (is_finite v ≡ true) × ((v <? start) ≡ false) × ((room start extent taken <? v) ≡ false)
    coordinate value start extent taken fv fs ft fits h =
        let (finite, after) = h taken ft fits in
        rw finite (clamp_value_lem ord value start (room start extent taken) fv fs finite after)

    positioned-IsInside :
        (r bounds : Rect W) (s : Size W)
        → IsUsable r
        → IsUsable bounds
        → HasRoom bounds.x bounds.width
        → HasRoom bounds.y bounds.height
        → IsFitting bounds s
        → IsUsable (positioned r bounds s) × IsInside bounds (positioned r bounds s)
    unfolding clamp_position_to_bounds
    positioned-IsInside r bounds s u b across down f =
        let (fx, left, right) =
          coordinate r.x bounds.x bounds.width s.width u.x_finite b.x_finite f.width_finite
            f.width_fits across in
        let (fy, top, bottom) =
          coordinate r.y bounds.y bounds.height s.height u.y_finite b.y_finite f.height_finite
            f.height_fits down in
        (
          record {
            x_finite = fx;
            y_finite = fy;
            width_finite = f.width_finite;
            height_finite = f.height_finite;
            width_positive = f.width_positive;
            height_positive = f.height_positive;
          },
          record {
            left = left;
            right = right;
            top = top;
            bottom = bottom;
            width_fits = f.width_fits;
            height_fits = f.height_fits;
          },
        )

    pub place-IsInside :
        (r bounds : Rect W) (ratio : Option W)
        → IsUsable r
        → IsUsable bounds
        → IsExact bounds ratio
        → IsUsable (place r bounds ratio) × IsInside bounds (place r bounds ratio)
    unfolding place
    place-IsInside r bounds ratio u b e =
        let s = fit_size_to_bounds (size_of r) bounds ratio in
        let (used, inside) =
          positioned-IsInside r bounds s u b e.across e.down
            (fit-IsFitting r bounds ratio u b e.shape) in
        rw (not_unusable ord (positioned r bounds s) used) (used, inside)
