-- ===== src/ImageCrop/OutputSize.antt =====
-- The size of the image that a selection gives: web/frontend/src/view/image_upload/outputSize.ts,
-- the scale and the bounds of the image from
-- web/frontend/src/component/ImageCropDialog/cropperImageUtils.ts, and
-- `computeOutputSizeFromSelection` of index.tsx beside it. The cropper's matrix and the rectangles
-- that the browser measures are arguments.
use touhou_cloud_music_thcdb.Common.{
  Bool, not, ◌&&◌, ◌||◌, Option, none, some, or_else, if◌then◌else◌,
}
use touhou_cloud_music_thcdb.ImageCrop.Numbers.{Number, is_finite, ◌<?◌, ◌≤?◌}
use touhou_cloud_music_thcdb.ImageCrop.Geometry.{Rect, Size}
use touhou_cloud_music_thcdb.ImageCrop.Selection.{to_finite}

-- `1`, `0.5`, `Number.EPSILON` and the functions of `Math`
pub record MathOf (W : Type 0) : Type 0 where
  pub one : W
  pub half : W
  pub epsilon : W
  pub max : W → W → W
  pub min : W → W → W
  pub abs : W → W
  pub round : W → W

pub record ScaleRange (W : Type 0) : Type 0 where
  pub min : W
  pub max : W

pub record ImageDimensionRange (W : Type 0) : Type 0 where
  pub width : ScaleRange W
  pub height : ScaleRange W

pub record ImageScale (W : Type 0) : Type 0 where
  pub scale_x : W
  pub scale_y : W

-- The first four numbers of the cropper's matrix.
pub record Matrix (W : Type 0) : Type 0 where
  pub a : Option W
  pub b : Option W
  pub c : Option W
  pub d : Option W

-- The edges of an element, as the browser measures them.
pub record DomRect (W : Type 0) : Type 0 where
  pub left : W
  pub top : W
  pub right : W
  pub bottom : W

module _ {W : Type 0} ⦃n : Number W⦄ ⦃m : MathOf W⦄ where
  unfoldable pub is_finite_positive : W → Bool
  is_finite_positive value = is_finite value && n.nought <? value

  unfoldable pub from_rounded_output_bounds : ScaleRange W → W → ScaleRange W
  from_rounded_output_bounds self raw_size = record {
    min = m.max n.nought (n.div (n.sub self.min m.half) raw_size);
    max = n.div (n.add self.max m.half) raw_size;
  }

  unfoldable pub get_max_value_below_upper_bound : ScaleRange W → W
  get_max_value_below_upper_bound self =
      let epsilon = n.mul m.epsilon (m.max m.one (m.abs self.max)) in
      m.max self.min (n.sub self.max epsilon)

  unfoldable pub try_intersect : ScaleRange W → ScaleRange W → Option (ScaleRange W)
  try_intersect self other =
      let low = m.max self.min other.min in
      let high = m.min self.max other.max in
      if high ≤? low then none else some (record { min = low; max = high })

  unfoldable pub get_allowed_scale_range : ImageDimensionRange W → W → W → Option (ScaleRange W)
  get_allowed_scale_range self raw_width raw_height =
      try_intersect (from_rounded_output_bounds self.width raw_width)
        (from_rounded_output_bounds self.height raw_height)

  unfoldable pub resolve_scale : ImageDimensionRange W → W → W → ScaleRange W → W
  resolve_scale self raw_width raw_height scale_range =
      let preferred_min =
        m.max (n.div self.width.min raw_width) (n.div self.height.min raw_height) in
      let preferred_max =
        m.min (n.div self.width.max raw_width) (n.div self.height.max raw_height) in
      if scale_range.min ≤? m.one && m.one <? scale_range.max
      then m.one
      else if m.one <? preferred_min
      then m.min preferred_min (get_max_value_below_upper_bound scale_range)
      else m.max preferred_max scale_range.min

  abbrev pub scaled : W → W → W → Size W
  scaled raw_width raw_height scale = record {
    width = m.round (n.mul raw_width scale);
    height = m.round (n.mul raw_height scale);
  }

  unfoldable pub compute_output_size : W → W → ImageDimensionRange W → Option (Size W)
  compute_output_size raw_width raw_height range =
      if not (is_finite_positive raw_width) || not (is_finite_positive raw_height)
      then none
      else elim (get_allowed_scale_range range raw_width raw_height) [
        | none ↦ none
        | some scale_range ↦
            some
              (scaled raw_width raw_height (resolve_scale range raw_width raw_height scale_range))
      ]

  -- The first argument is `Math.hypot`. Without the element of the image there is no matrix.
  unfoldable pub get_image_scale : (W → W → W) → Option (Matrix W) → Option (ImageScale W)
  get_image_scale hypot none = none
  get_image_scale hypot (some matrix) =
      let a = or_else (to_finite matrix.a) m.one in
      let b = or_else (to_finite matrix.b) n.nought in
      let c = or_else (to_finite matrix.c) n.nought in
      let d = or_else (to_finite matrix.d) m.one in
      let scale_x = hypot a b in
      let scale_y = hypot c d in
      if not (is_finite scale_x) || scale_x ≤? n.nought
      then none
      else if not (is_finite scale_y) || scale_y ≤? n.nought
      then none
      else some (record { scale_x = scale_x; scale_y = scale_y })

  abbrev pub visible_bounds : DomRect W → DomRect W → Option (Rect W)
  visible_bounds canvas image =
      let left = m.max image.left canvas.left in
      let top = m.max image.top canvas.top in
      let width = n.sub (m.min image.right canvas.right) left in
      let height = n.sub (m.min image.bottom canvas.bottom) top in
      if not (is_finite width) || not (is_finite height)
      then none
      else if width ≤? n.nought || height ≤? n.nought
      then none
      else some (record {
        x = n.sub left canvas.left;
        y = n.sub top canvas.top;
        width = width;
        height = height;
      })

  unfoldable pub get_image_bounds : Option (DomRect W) → Option (DomRect W) → Option (Rect W)
  get_image_bounds (some canvas) (some image) = visible_bounds canvas image
  get_image_bounds _ _ = none

  -- A number that the code refuses: `!Number.isFinite(a) || a <= 0`.
  abbrev pub refused : W → Bool
  refused a = not (is_finite a) || a ≤? n.nought

  unfoldable pub compute_output_size_from_selection :
      (W → W → W) → Option (Matrix W) → Size W → (W → W → Option (Size W)) → Option (Size W)
  compute_output_size_from_selection hypot matrix selection compute =
      if not (is_finite selection.width) || not (is_finite selection.height)
      then none
      else if selection.width ≤? n.nought || selection.height ≤? n.nought
      then none
      else elim (get_image_scale hypot matrix) [
        | none ↦ none
        | some scale ↦
            let raw_width = n.div selection.width scale.scale_x in
            let raw_height = n.div selection.height scale.scale_y in
            if refused raw_width
            then none
            else if refused raw_height
            then none
            else compute raw_width raw_height
      ]
