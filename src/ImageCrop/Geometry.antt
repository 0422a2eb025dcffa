-- ===== src/ImageCrop/Geometry.antt =====
-- Rectangles and bounds: web/frontend/src/component/ImageCropDialog/cropperGeometry.ts, with
-- numbers as `Number` has them.
use touhou_cloud_music_thcdb.Common.{
  ℕ, zero, suc, Bool, not, ◌&&◌, ◌||◌, Option, none, some, if◌then◌else◌,
}
use touhou_cloud_music_thcdb.ImageCrop.Numbers.{Number, is_finite, ◌<?◌, ◌≤?◌, truthy}

pub record Rect (W : Type 0) : Type 0 where
  pub x : W
  pub y : W
  pub width : W
  pub height : W

pub record Size (W : Type 0) : Type 0 where
  pub width : W
  pub height : W

pub record Point (W : Type 0) : Type 0 where
  pub x : W
  pub y : W

module _ {W : Type 0} ⦃n : Number W⦄ where
  unfoldable pub clamp_value : W → W → W → W
  clamp_value value low high =
      if not (is_finite low) || not (is_finite high)
      then (if is_finite value then value else n.nought)
      else if high <? low
      then (if is_finite value then value else low)
      else if not (is_finite value)
      then low
      else if value <? low
      then low
      else if high <? value
      then high
      else value

  -- `ratio && ratio > 0`
  abbrev pub is_ratio : W → Bool
  is_ratio ratio = truthy ratio && n.nought <? ratio

  unfoldable pub fit_to_ratio : Size W → Rect W → W → Size W
  fit_to_ratio size bounds ratio =
      if bounds.width <? size.width || bounds.height <? size.height
      then (if ratio <? n.div bounds.width bounds.height
          then record { width = n.mul bounds.height ratio; height = bounds.height }
          else record { width = bounds.width; height = n.div bounds.width ratio })
      else size

  unfoldable pub fit_freely : Size W → Rect W → Size W
  fit_freely size bounds = record {
    width = if bounds.width <? size.width then bounds.width else size.width;
    height = if bounds.height <? size.height then bounds.height else size.height;
  }

  unfoldable pub fit_by_ratio : Size W → Rect W → Option W → Size W
  unfolding fit_to_ratio fit_freely
  fit_by_ratio size bounds none = fit_freely size bounds
  fit_by_ratio size bounds (some ratio) =
      if is_ratio ratio then fit_to_ratio size bounds ratio else fit_freely size bounds

  unfoldable pub fit_size_to_bounds : Size W → Rect W → Option W → Size W
  unfolding fit_by_ratio
  fit_size_to_bounds size bounds ratio =
      if not (is_finite bounds.width) || not (is_finite bounds.height)
      then size
      else if not (is_finite size.width) || not (is_finite size.height)
      then size
      else fit_by_ratio size bounds ratio

  -- `Number.isFinite(maxX) ? maxX : bounds.x`
  abbrev pub safe_max : W → W → W
  safe_max high low = if is_finite high then high else low

  unfoldable pub clamp_position_to_bounds : Point W → Size W → Rect W → Point W
  unfolding clamp_value
  clamp_position_to_bounds position size bounds =
      let max_x = n.sub (n.add bounds.x bounds.width) size.width in
      let max_y = n.sub (n.add bounds.y bounds.height) size.height in
      record {
        x = clamp_value position.x bounds.x (safe_max max_x bounds.x);
        y = clamp_value position.y bounds.y (safe_max max_y bounds.y);
      }

  -- The rectangle at the corner of the bounds with this size.
  abbrev pub corner : Rect W → W → W → Rect W
  corner bounds width height = record { x = bounds.x; y = bounds.y; width = width; height = height }

  unfoldable pub create_fallback_rect : Rect W → Option W → Rect W
  create_fallback_rect bounds none = corner bounds bounds.width bounds.height
  create_fallback_rect bounds (some ratio) =
      let ratio_width = n.mul bounds.height ratio in
      let ratio_height = n.div bounds.width ratio in
      if not (truthy ratio) || ratio ≤? n.nought
      then corner bounds bounds.width bounds.height
      else if ratio_width ≤? bounds.width
      then corner bounds ratio_width bounds.height
      else corner bounds bounds.width ratio_height

  -- The test of the bounds, of the rectangle and of what becomes of it.
  unfoldable pub is_unusable : Rect W → Bool
  is_unusable r =
      not (is_finite r.x)
      || not (is_finite r.y)
      || not (is_finite r.width)
      || not (is_finite r.height)
      || r.width ≤? n.nought
      || r.height ≤? n.nought

  unfoldable pub place : Rect W → Rect W → Option W → Rect W
  unfolding fit_size_to_bounds clamp_position_to_bounds is_unusable create_fallback_rect
  place rect bounds ratio =
      let size =
        fit_size_to_bounds (record { width = rect.width; height = rect.height }) bounds ratio in
      let position = clamp_position_to_bounds (record { x = rect.x; y = rect.y }) size bounds in
      let next : Rect W = record {
        x = position.x;
        y = position.y;
        width = size.width;
        height = size.height;
      } in
      if is_unusable next then create_fallback_rect bounds ratio else next

  -- With fuel for the calls of itself: `none` when it runs out, as the stack of the source does.
  unfoldable pub clamp_rect_to_bounds : ℕ → Rect W → Rect W → Option W → Option (Rect W)
  unfolding is_unusable create_fallback_rect place
  clamp_rect_to_bounds zero rect bounds ratio = none
  clamp_rect_to_bounds (suc fuel) rect bounds ratio =
      let again = clamp_rect_to_bounds fuel (create_fallback_rect bounds ratio) bounds ratio in
      if is_unusable bounds
      then some rect
      else if is_unusable rect
      then again
      else some (place rect bounds ratio)
