-- ===== src/ImageCrop/Bounds.antt =====
-- A rectangle is put inside the bounds, where rounding does not get in the way.
use touhou_cloud_music_thcdb.Common.{◌≡◌, true, false, Option, none, some, arith}
use touhou_cloud_music_thcdb.ImageCrop.Numbers.{Number, IsOrdered, is_finite, ◌<?◌, ◌≤?◌, truthy}
use touhou_cloud_music_thcdb.ImageCrop.Geometry.{Rect, Size, clamp_value, is_unusable}

module _ {W : Type 0} ⦃n : Number W⦄ where
  -- Finite, with a size above 0.
  pub record IsUsable (r : Rect W) : Type 0 where
    pub x_finite : is_finite r.x ≡ true
    pub y_finite : is_finite r.y ≡ true
    pub width_finite : is_finite r.width ≡ true
    pub height_finite : is_finite r.height ≡ true
    pub width_positive : (n.nought <? r.width) ≡ true
    pub height_positive : (n.nought <? r.height) ≡ true

  -- The size of a rectangle in the bounds.
  pub record IsFitting (bounds : Rect W) (s : Size W) : Type 0 where
    pub width_finite : is_finite s.width ≡ true
    pub height_finite : is_finite s.height ≡ true
    pub width_positive : (n.nought <? s.width) ≡ true
    pub height_positive : (n.nought <? s.height) ≡ true
    pub width_fits : (bounds.width <? s.width) ≡ false
    pub height_fits : (bounds.height <? s.height) ≡ false

  -- The place that is left for the left or the upper edge.
  abbrev pub room : W → W → W → W
  room start extent taken = n.sub (n.add start extent) taken

  -- No edge of the rectangle is outside the bounds.
  pub record IsInside (bounds r : Rect W) : Type 0 where
    pub left : (r.x <? bounds.x) ≡ false
    pub right : (room bounds.x bounds.width r.width <? r.x) ≡ false
    pub top : (r.y <? bounds.y) ≡ false
    pub bottom : (room bounds.y bounds.height r.height <? r.y) ≡ false
    pub width_fits : (bounds.width <? r.width) ≡ false
    pub height_fits : (bounds.height <? r.height) ≡ false

  -- What fits leaves a place, of a finite number that is not before the start.
  abbrev pub HasRoom : W → W → Type 0
  HasRoom start extent =
      (taken : W)
      → is_finite taken ≡ true
      → (extent <? taken) ≡ false
      → (is_finite (room start extent taken) ≡ true) × ((room start extent taken <? start) ≡ false)

  -- The sizes of this ratio that take the height or the width of the bounds are finite and above 0,
  -- and rounding does not make one larger than the bounds when the tests say that it fits.
  pub record IsExactRatio (bounds : Rect W) (ratio : W) : Type 0 where
    pub ratio_finite : is_finite ratio ≡ true
    pub ratio_positive : (n.nought <? ratio) ≡ true
    pub wide_finite : is_finite (n.mul bounds.height ratio) ≡ true
    pub wide_positive : (n.nought <? n.mul bounds.height ratio) ≡ true
    pub tall_finite : is_finite (n.div bounds.width ratio) ≡ true
    pub tall_positive : (n.nought <? n.div bounds.width ratio) ≡ true
    pub wide_fits :
        (ratio <? n.div bounds.width bounds.height) ≡ true
        → (bounds.width <? n.mul bounds.height ratio) ≡ false
    pub tall_fits :
        (ratio <? n.div bounds.width bounds.height) ≡ false
        → (bounds.height <? n.div bounds.width ratio) ≡ false
    pub tall_fits_otherwise :
        (n.mul bounds.height ratio ≤? bounds.width) ≡ false
        → (bounds.height <? n.div bounds.width ratio) ≡ false

  abbrev pub IsExactFor : Rect W → Option W → Type 0
  IsExactFor bounds none = Unit
  IsExactFor bounds (some ratio) = IsExactRatio bounds ratio

  pub record IsExact (bounds : Rect W) (ratio : Option W) : Type 0 where
    pub across : HasRoom bounds.x bounds.width
    pub down : HasRoom bounds.y bounds.height
    pub shape : IsExactFor bounds ratio

  module _ (ord : IsOrdered W) where
    pub clamp_value_lem :
        (value low high : W)
        → is_finite value ≡ true
        → is_finite low ≡ true
        → is_finite high ≡ true
        → (high <? low) ≡ false
        → (is_finite (clamp_value value low high) ≡ true)
          × ((clamp_value value low high <? low) ≡ false)
          × ((high <? clamp_value value low high) ≡ false)
    unfolding clamp_value
    clamp_value_lem value low high fv fl fh h =
        ground (arith, ord.lt_irrefl low, ord.lt_irrefl high)

    pub clamp_value_self :
        (value low high : W)
        → is_finite value ≡ true
        → is_finite low ≡ true
        → is_finite high ≡ true
        → (high <? low) ≡ false
        → (value <? low) ≡ false
        → (high <? value) ≡ false
        → clamp_value value low high ≡ value
    unfolding clamp_value
    clamp_value_self value low high fv fl fh h a b = ground arith

    pub usable : (r : Rect W) → is_unusable r ≡ false → IsUsable r
    unfolding is_unusable
    usable r h = ground (
      arith,
      ord.nought_finite,
      ord.le-eq-not-lt r.width n.nought,
      ord.le-eq-not-lt r.height n.nought,
    )

    pub not_unusable : (r : Rect W) → IsUsable r → is_unusable r ≡ false
    unfolding is_unusable
    not_unusable r u = ground (
      arith,
      ord.nought_finite,
      ord.le-eq-not-lt r.width n.nought,
      ord.le-eq-not-lt r.height n.nought,
    )

    -- A ratio above 0 has the truth value true.
    pub positive_truthy :
        (ratio : W)
        → is_finite ratio ≡ true
        → (n.nought <? ratio) ≡ true
        → (truthy ratio ≡ true) × ((ratio ≤? n.nought) ≡ false)
    positive_truthy ratio f p = ground (
      arith,
      ord.nought_finite,
      ord.lt_irrefl ratio,
      ord.same-eq-not-lt ratio ratio,
      ord.same-eq-not-lt ratio n.nought,
      ord.le-eq-not-lt ratio n.nought,
    )
