-- ===== src/ImageCrop/Computed.antt =====
-- The size of the output: what `computeOutputSize` returns.
use touhou_cloud_music_thcdb.Common.{◌≡◌, ◌⊎◌, inl, inr, refl, true, none, some, arith, Bool-cases}
use touhou_cloud_music_thcdb.ImageCrop.Numbers.{Number, IsOrdered, ◌<?◌, ◌≤?◌}
use touhou_cloud_music_thcdb.ImageCrop.Geometry.{Size}
use touhou_cloud_music_thcdb.ImageCrop.OutputSize.{
  MathOf, ImageDimensionRange, is_finite_positive, try_intersect, get_allowed_scale_range,
  resolve_scale, scaled, compute_output_size,
}
use touhou_cloud_music_thcdb.ImageCrop.Scale.{IsMath, HasBelow, IsApart, IsAllowed}
use touhou_cloud_music_thcdb.ImageCrop.Resolved.{resolve-one}
use touhou_cloud_music_thcdb.ImageCrop.Both.{
  both, both-finite, both-IsAllowed, both-IsIn, closed, both-IsOpen, both-resolve,
}

module _ {W : Type 0} ⦃n : Number W⦄ ⦃m : MathOf W⦄ (ord : IsOrdered W) (math : IsMath W)
    (gap : HasBelow W) where
  -- The size whose sides have this scale, which is allowed for both, and is 1 if 1 is.
  pub record IsScaled (range : ImageDimensionRange W) (raw_width raw_height scale : W)
      (size : Size W) : Type 0 where
    pub size_eq : size ≡ scaled raw_width raw_height scale
    pub width_allowed : IsAllowed range.width raw_width scale
    pub height_allowed : IsAllowed range.height raw_height scale
    pub kept :
        IsAllowed range.width raw_width m.one
        → IsAllowed range.height raw_height m.one
        → scale ≡ m.one

  -- For finite sides above 0, where the quotients of the allowed range by them are finite and
  -- rounding leaves them apart: the output is both sides times one scale, rounded, and that scale
  -- keeps both within the bounds from which a size is rounded into its range, the upper bound
  -- excluded; it is 1 if 1 does. There is no output exactly when no scale does.
  pub compute_output_size_lem :
      (range : ImageDimensionRange W) (raw_width raw_height : W)
      → is_finite_positive raw_width ≡ true
      → is_finite_positive raw_height ≡ true
      → IsApart range.width raw_width
      → IsApart range.height raw_height
      → ((size : Size W) × (compute_output_size raw_width raw_height range ≡ some size)
          × (scale : W) × IsScaled range raw_width raw_height scale size)
        ⊎ ((compute_output_size raw_width raw_height range ≡ none)
            × ((scale : W)
                → IsAllowed range.width raw_width scale
                → ¬ IsAllowed range.height raw_height scale))
  unfolding compute_output_size get_allowed_scale_range try_intersect
  compute_output_size_lem range rw_ rh pw ph w h =
      let s = both ord math gap range rw_ rh in
      let (low, high) = both-finite ord math gap range rw_ rh w h in
      elim (Bool-cases (s.max ≤? s.min)) [
        | inl empty ↦ inr (
          rw (pw, ph, empty) refl,
          λ scale aw ah. closed ord math gap range rw_ rh scale w h empty aw ah,
        )
        | inr apart ↦
            let lt : (s.min <? s.max) ≡ true =
              ground (arith, ord.le-eq-not-lt s.max s.min high low) in
            let scale = resolve_scale range rw_ rh s in
            let (aw, ah) =
              both-IsAllowed ord math gap range rw_ rh scale w h
                (both-resolve ord math gap range rw_ rh w h lt) in
            inl (
              scaled rw_ rh scale,
              rw (pw, ph, apart) refl,
              scale,
              record {
                size_eq = refl;
                width_allowed = aw;
                height_allowed = ah;
                kept = λ ow oh.
                    resolve-one ord math gap range rw_ rh s
                      (both-IsOpen ord math gap range rw_ rh w h lt)
                      (both-IsIn ord math gap range rw_ rh m.one ow oh);
              },
            )
      ]
