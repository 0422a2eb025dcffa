-- ===== src/ImageCrop/Resolved.antt =====
-- The scale that is chosen.
use touhou_cloud_music_thcdb.Common.{◌&&◌, ◌≡◌, inl, inr, true, false, arith, Bool-cases}
use touhou_cloud_music_thcdb.ImageCrop.Numbers.{Number, IsOrdered, is_finite, ◌<?◌, ◌≤?◌}
use touhou_cloud_music_thcdb.ImageCrop.OutputSize.{
  MathOf, ScaleRange, ImageDimensionRange, get_max_value_below_upper_bound, resolve_scale,
}
use touhou_cloud_music_thcdb.ImageCrop.Scale.{
  IsMath, HasBelow, IsApart, le_lt_trans, max_finite, min_finite, max_lt, le_min,
}

module _ {W : Type 0} ⦃n : Number W⦄ ⦃m : MathOf W⦄ (ord : IsOrdered W) (math : IsMath W)
    (gap : HasBelow W) where
  -- A scale in the range, its upper bound excluded.
  abbrev pub IsIn : ScaleRange W → W → Type 0
  IsIn s scale = (is_finite scale ≡ true) × ((scale <? s.min) ≡ false) × ((scale <? s.max) ≡ true)

  -- The range has a number, and not only negative ones.
  pub record IsOpen (s : ScaleRange W) : Type 0 where
    pub min_finite : is_finite s.min ≡ true
    pub max_finite : is_finite s.max ≡ true
    pub apart : (s.min <? s.max) ≡ true
    pub positive : (n.nought <? s.max) ≡ true

  below-IsIn : (s : ScaleRange W) → IsOpen s → IsIn s (get_max_value_below_upper_bound s)
  unfolding get_max_value_below_upper_bound
  below-IsIn s o =
      let below = n.sub s.max (n.mul m.epsilon (m.max m.one (m.abs s.max))) in
      let finite = gap.below_finite s.max o.max_finite o.positive in
      (
        max_finite ord math s.min below o.min_finite finite,
        math.max_left s.min below o.min_finite finite,
        max_lt ord math s.min below s.max o.apart (gap.below_lt s.max o.max_finite o.positive),
      )

  raised-IsIn :
      (s : ScaleRange W) (a b : W)
      → IsOpen s
      → is_finite a ≡ true
      → (a <? s.min) ≡ false
      → IsIn s b
      → IsIn s (m.min a b)
  raised-IsIn s a b o fa h (fb, low, high) = (
    min_finite ord math a b fa fb,
    le_min ord math a b s.min h low,
    le_lt_trans ord math (m.min a b) b s.max (min_finite ord math a b fa fb) fb o.max_finite
        (math.min_right a b fa fb) high,
  )

  lowered-IsIn :
      (s : ScaleRange W) (a : W)
      → IsOpen s
      → is_finite a ≡ true
      → (a <? s.max) ≡ true
      → IsIn s (m.max a s.min)
  lowered-IsIn s a o fa h = (
    max_finite ord math a s.min fa o.min_finite,
    math.max_right a s.min fa o.min_finite,
    max_lt ord math a s.min s.max h o.apart,
  )

  pub resolve-IsIn :
      (range : ImageDimensionRange W) (raw_width raw_height : W) (s : ScaleRange W)
      → IsOpen s
      → IsApart range.width raw_width
      → IsApart range.height raw_height
      → (m.max (n.div range.width.min raw_width) (n.div range.height.min raw_height) <? s.min)
        ≡ false
      → (m.min (n.div range.width.max raw_width) (n.div range.height.max raw_height) <? s.max)
        ≡ true
      → IsIn s (resolve_scale range raw_width raw_height s)
  unfolding resolve_scale
  resolve-IsIn range rw_ rh s o w h low high =
      elim (Bool-cases (s.min ≤? m.one && m.one <? s.max)) [
        | inl one ↦
            rw one ground
              (arith, math.one_finite, ord.le-eq-not-lt s.min m.one o.min_finite math.one_finite)
        | inr other ↦
            elim (Bool-cases
              (m.one <? m.max (n.div range.width.min rw_) (n.div range.height.min rh))) [
                | inl up ↦
                    rw (other, up)
                      (raised-IsIn s (m.max (n.div range.width.min rw_) (n.div range.height.min rh))
                        (get_max_value_below_upper_bound s) o
                        (max_finite ord math (n.div range.width.min rw_) (n.div range.height.min rh)
                          w.min_finite h.min_finite)
                        low (below-IsIn s o))
                | inr down ↦
                    rw (other, down)
                      (lowered-IsIn s
                        (m.min (n.div range.width.max rw_) (n.div range.height.max rh)) o
                        (min_finite ord math (n.div range.width.max rw_) (n.div range.height.max rh)
                          w.max_finite h.max_finite)
                        high)
              ]
      ]

  pub resolve-one :
      (range : ImageDimensionRange W) (raw_width raw_height : W) (s : ScaleRange W)
      → IsOpen s
      → IsIn s m.one
      → resolve_scale range raw_width raw_height s ≡ m.one
  unfolding resolve_scale
  resolve-one range raw_width raw_height s o (f, low, high) =
      ground (arith, ord.le-eq-not-lt s.min m.one o.min_finite f)
