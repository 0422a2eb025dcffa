-- ===== src/ImageCrop/Measured.antt =====
-- What is measured on the page: the bounds of the image, and the size of a selection.
use touhou_cloud_music_thcdb.Common.{◌≡◌, true, Option, none, some, arith}
use touhou_cloud_music_thcdb.ImageCrop.Numbers.{Number, IsOrdered}
use touhou_cloud_music_thcdb.ImageCrop.Geometry.{Rect, Size}
use touhou_cloud_music_thcdb.ImageCrop.OutputSize.{
  MathOf, Matrix, DomRect, ImageScale, get_image_scale, get_image_bounds, is_finite_positive,
  compute_output_size_from_selection,
}

module _ {W : Type 0} ⦃n : Number W⦄ ⦃m : MathOf W⦄ (ord : IsOrdered W) where
  get_image_bounds-positive :
      (canvas image : Option (DomRect W)) (r : Rect W)
      → get_image_bounds canvas image ≡ some r
      → (is_finite_positive r.width ≡ true) × (is_finite_positive r.height ≡ true)
  unfolding get_image_bounds is_finite_positive
  get_image_bounds-positive none image r p = ground arith
  get_image_bounds-positive (some canvas) none r p = ground arith
  get_image_bounds-positive (some canvas) (some image) r p = ground (
    arith,
    ord.nought_finite,
    ord.le-eq-not-lt r.width n.nought,
    ord.le-eq-not-lt r.height n.nought,
  )

  -- A size is only asked for when both sides are finite and above 0.
  selection-positive :
      (hypot : W → W → W) (matrix : Option (Matrix W)) (scale : ImageScale W)
      (selection size : Size W) (compute : W → W → Option (Size W))
      → get_image_scale hypot matrix ≡ some scale
      → compute_output_size_from_selection hypot matrix selection compute ≡ some size
      → (is_finite_positive (n.div selection.width scale.scale_x) ≡ true)
        × (is_finite_positive (n.div selection.height scale.scale_y) ≡ true)
        × (compute (n.div selection.width scale.scale_x) (n.div selection.height scale.scale_y)
            ≡ some size)
  unfolding compute_output_size_from_selection is_finite_positive
  selection-positive hypot matrix scale selection size compute q p =
      let raw_width = n.div selection.width scale.scale_x in
      let raw_height = n.div selection.height scale.scale_y in
      ground (
        arith,
        ord.nought_finite,
        ord.le-eq-not-lt raw_width n.nought,
        ord.le-eq-not-lt raw_height n.nought,
      )
