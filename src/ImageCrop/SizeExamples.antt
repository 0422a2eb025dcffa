-- ===== src/ImageCrop/SizeExamples.antt =====
-- Sizes in fixed-point numbers: thousandths, rounded down.
use touhou_cloud_music_thcdb.Common.{
  ℕ, ◌+◌, ◌*◌, ◌/◌, ◌≡◌, ◌⊎◌, refl, none, some, ltb, arith, if◌then◌else◌, ◌==◌,
}
use touhou_cloud_music_thcdb.ImageCrop.Numbers.{Number, IsOrdered, Whole, whole_number, combined}
use touhou_cloud_music_thcdb.ImageCrop.Geometry.{Size}
use touhou_cloud_music_thcdb.ImageCrop.OutputSize.{
  MathOf, ImageDimensionRange, is_finite_positive, from_rounded_output_bounds, try_intersect,
  get_allowed_scale_range, resolve_scale, compute_output_size,
}
use touhou_cloud_music_thcdb.ImageCrop.Scale.{IsMath, HasBelow, IsApart, IsAllowed}
use touhou_cloud_music_thcdb.ImageCrop.Computed.{IsScaled, compute_output_size_lem}

abbrev fixed_number : Number Whole
fixed_number = record whole_number {
  mul = combined λ a b. some (a * b / 1000);
  div = combined λ a b. if b == 0 then none else some (a * 1000 / b);
}

-- `none` is what `Math.max` and `Math.min` return when they are given it.
abbrev fixed_math : MathOf Whole
fixed_math = record {
  one = some 1000;
  half = some 500;
  epsilon = some 1;
  max = combined λ a b. some (if ltb a b then b else a);
  min = combined λ a b. some (if ltb a b then a else b);
  abs = λ a. a;
  round = combined (λ a b. some ((a + 500) / 1000 * b)) (some 1000);
}

fixed-IsOrdered : IsOrdered Whole ⦃n = fixed_number⦄
fixed-IsOrdered = ground arith

fixed-IsMath : IsMath Whole ⦃n = fixed_number⦄ ⦃m = fixed_math⦄
fixed-IsMath = ground arith

fixed-HasBelow : HasBelow Whole ⦃n = fixed_number⦄ ⦃m = fixed_math⦄
fixed-HasBelow = ground arith

abbrev px : ℕ → Whole
px k = some (k * 1000)

abbrev cover : ImageDimensionRange Whole
cover = record {
  width = record { min = px 100; max = px 150 };
  height = record { min = px 50; max = px 120 };
}

size_of_cover :
    compute_output_size ⦃n = fixed_number⦄ ⦃m = fixed_math⦄ (px 300) (px 200) cover
    ≡ some (record { width = px 150; height = px 100 })
unfolding compute_output_size is_finite_positive get_allowed_scale_range try_intersect
    from_rounded_output_bounds resolve_scale
size_of_cover = refl

size_of_strip :
    compute_output_size ⦃n = fixed_number⦄ ⦃m = fixed_math⦄ (px 900) (px 20) cover ≡ none
unfolding compute_output_size is_finite_positive get_allowed_scale_range try_intersect
    from_rounded_output_bounds resolve_scale
size_of_strip = refl

cover_width-IsApart : IsApart ⦃n = fixed_number⦄ ⦃m = fixed_math⦄ cover.width (px 300)
cover_width-IsApart = ground arith

cover_height-IsApart : IsApart ⦃n = fixed_number⦄ ⦃m = fixed_math⦄ cover.height (px 200)
cover_height-IsApart = ground arith

compute_output_size_lem_example :
    ((size : Size Whole) × (compute_output_size ⦃n = fixed_number⦄ ⦃m = fixed_math⦄
          (px 300)
          (px 200)
          cover
        ≡ some size)
      × (scale : Whole) × IsScaled ⦃n = fixed_number⦄ ⦃m = fixed_math⦄ fixed-IsOrdered fixed-IsMath
          fixed-HasBelow cover
          (px 300)
          (px 200)
          scale
          size)
    ⊎ ((compute_output_size ⦃n = fixed_number⦄ ⦃m = fixed_math⦄ (px 300) (px 200) cover ≡ none)
        × ((scale : Whole)
            → IsAllowed ⦃n = fixed_number⦄ ⦃m = fixed_math⦄ cover.width (px 300) scale
            → ¬ IsAllowed ⦃n = fixed_number⦄ ⦃m = fixed_math⦄ cover.height (px 200) scale))
unfolding is_finite_positive
compute_output_size_lem_example =
    compute_output_size_lem ⦃n = fixed_number⦄ ⦃m = fixed_math⦄ fixed-IsOrdered fixed-IsMath
      fixed-HasBelow cover (px 300) (px 200) refl refl cover_width-IsApart cover_height-IsApart
