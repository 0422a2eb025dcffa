-- ===== src/ImageCrop/Selection.antt =====
-- A change of the selection: web/frontend/src/component/ImageCropDialog/cropperSelectionPatch.ts.
-- The selection is the third-party cropper's; a handler says what it asks of it.
use touhou_cloud_music_thcdb.Common.{
  ℕ, Bool, true, false, not, ◌&&◌, ◌||◌, Option, none, some, or_else, if◌then◌else◌,
}
use touhou_cloud_music_thcdb.ImageCrop.Numbers.{Number, is_finite, ◌<?◌, ◌≤?◌, ◌=?◌, truthy}
use touhou_cloud_music_thcdb.ImageCrop.Geometry.{Rect, Size, clamp_rect_to_bounds}

-- `CropperSelectionChangeDetail`
pub record ChangeDetail (W : Type 0) : Type 0 where
  pub x : Option W
  pub y : Option W
  pub width : Option W
  pub height : Option W

-- A custom event may have a detail.
pub data ChangeEvent (W : Type 0) : Type 0 where
  plain : ChangeEvent W
  custom : Option (ChangeDetail W) → ChangeEvent W

-- The change is left as it is, or it is prevented and another is asked for.
pub data Handled (W : Type 0) : Type 0 where
  left : Handled W
  replaced : Rect W → Handled W

module _ {W : Type 0} ⦃n : Number W⦄ where
  unfoldable pub to_finite : Option W → Option W
  to_finite none = none
  to_finite (some value) = if is_finite value then some value else none

  unfoldable pub cover_ratio : W → W → W → Size W
  cover_ratio width height ratio =
      let projected_width = n.mul height ratio in
      if projected_width <? width
      then record { width = width; height = n.div width ratio }
      else record { width = projected_width; height = height }

  unfoldable pub normalize_size_to_ratio_cover : W → W → Option W → Size W
  unfolding cover_ratio
  normalize_size_to_ratio_cover width height none = record { width = width; height = height }
  normalize_size_to_ratio_cover width height (some ratio) =
      let given : Size W = record { width = width; height = height } in
      if not (truthy ratio) || ratio ≤? n.nought
      then given
      else if not (is_finite width) || width ≤? n.nought
      then given
      else if not (is_finite height) || height ≤? n.nought
      then given
      else cover_ratio width height ratio

  -- `next.x === xValue && ...`
  abbrev pub is_same : Rect W → Rect W → Bool
  is_same next r =
      next.x =? r.x && next.y =? r.y && next.width =? r.width && next.height =? r.height

  unfoldable pub handle_next : Rect W → Option (Rect W) → Option (Handled W)
  handle_next r none = none
  handle_next r (some next) = if is_same next r then some left else some (replaced next)

  -- What the handler does with the values of the event, within these bounds.
  unfoldable pub bound_change : ℕ → Rect W → Rect W → Option W → Option (Handled W)
  unfolding normalize_size_to_ratio_cover handle_next
  bound_change fuel r bounds ratio =
      let normalized = normalize_size_to_ratio_cover r.width r.height ratio in
      handle_next r (
        clamp_rect_to_bounds fuel
          (record { x = r.x; y = r.y; width = normalized.width; height = normalized.height }) bounds
          ratio)

  unfoldable pub handle_values : ℕ → Rect W → Option (Rect W) → Option W → Option (Handled W)
  unfolding bound_change
  handle_values fuel r none ratio = some left
  handle_values fuel r (some bounds) ratio = bound_change fuel r bounds ratio

  unfoldable pub handle_sized : ℕ → Rect W → Option (Rect W) → Option W → Option (Handled W)
  unfolding handle_values
  handle_sized fuel r bounds ratio =
      if r.width ≤? n.nought || r.height ≤? n.nought
      then some left
      else handle_values fuel r bounds ratio

  abbrev pub detail_x : Option (ChangeDetail W) → Option W
  detail_x none = none
  detail_x (some d) = d.x

  abbrev pub detail_y : Option (ChangeDetail W) → Option W
  detail_y none = none
  detail_y (some d) = d.y

  abbrev pub detail_width : Option (ChangeDetail W) → Option W
  detail_width none = none
  detail_width (some d) = d.width

  abbrev pub detail_height : Option (ChangeDetail W) → Option W
  detail_height none = none
  detail_height (some d) = d.height

  -- `onChange`. Its own change of the selection is made while it adjusts.
  unfoldable pub on_change :
      ℕ → Bool → ChangeEvent W → Option (Rect W) → Option W → Option (Handled W)
  unfolding to_finite handle_sized
  on_change fuel true event bounds ratio = some left
  on_change fuel false plain bounds ratio = some left
  on_change fuel false (custom detail) bounds ratio =
      let width = or_else (to_finite (detail_width detail)) n.nought in
      let height = or_else (to_finite (detail_height detail)) n.nought in
      elim (to_finite (detail_x detail)) [
        | none ↦ some left
        | some x ↦ elim (to_finite (detail_y detail)) [
          | none ↦ some left
          | some y ↦
              handle_sized fuel (record { x = x; y = y; width = width; height = height }) bounds
                ratio
        ]
      ]
