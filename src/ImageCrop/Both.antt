-- ===== src/ImageCrop/Both.antt =====
-- The bounds of the scale of both sizes together.
use touhou_cloud_music_thcdb.Common.{◌≡◌, true, false, arith}
use touhou_cloud_music_thcdb.ImageCrop.Numbers.{Number, IsOrdered, is_finite, ◌<?◌, ◌≤?◌}
use touhou_cloud_music_thcdb.ImageCrop.OutputSize.{
  MathOf, ScaleRange, ImageDimensionRange, from_rounded_output_bounds, resolve_scale,
}
use touhou_cloud_music_thcdb.ImageCrop.Scale.{
  IsMath, HasBelow, IsApart, IsAllowed, lowest, le_lt_trans, lt_le_trans, max_finite, min_finite,
  max_le, lt_min, from-finite, from-IsAllowed, IsAllowed-from, min-from, max-from,
}
use touhou_cloud_music_thcdb.ImageCrop.Resolved.{IsIn, IsOpen, resolve-IsIn}

module _ {W : Type 0} ⦃n : Number W⦄ ⦃m : MathOf W⦄ (ord : IsOrdered W) (math : IsMath W)
    (gap : HasBelow W) where
  -- The bounds of both sizes together.
  abbrev pub both : ImageDimensionRange W → W → W → ScaleRange W
  both range raw_width raw_height =
      let a = from_rounded_output_bounds range.width raw_width in
      let b = from_rounded_output_bounds range.height raw_height in
      record { min = m.max a.min b.min; max = m.min a.max b.max }

  pub both-finite :
      (range : ImageDimensionRange W) (raw_width raw_height : W)
      → IsApart range.width raw_width
      → IsApart range.height raw_height
      → (is_finite (both range raw_width raw_height).min ≡ true)
        × (is_finite (both range raw_width raw_height).max ≡ true)
  both-finite range rw_ rh w h =
      let a = from_rounded_output_bounds range.width rw_ in
      let b = from_rounded_output_bounds range.height rh in
      let (wl, wh) = from-finite ord math range.width rw_ w in
      let (hl, hh) = from-finite ord math range.height rh h in
      (max_finite ord math a.min b.min wl hl, min_finite ord math a.max b.max wh hh)

  pub both-IsAllowed :
      (range : ImageDimensionRange W) (raw_width raw_height scale : W)
      → IsApart range.width raw_width
      → IsApart range.height raw_height
      → IsIn ord math gap (both range raw_width raw_height) scale
      → IsAllowed range.width raw_width scale × IsAllowed range.height raw_height scale
  both-IsAllowed range rw_ rh scale w h (f, low, high) =
      let a = from_rounded_output_bounds range.width rw_ in
      let b = from_rounded_output_bounds range.height rh in
      let (wl, wh) = from-finite ord math range.width rw_ w in
      let (hl, hh) = from-finite ord math range.height rh h in
      let (bl, bh) = both-finite range rw_ rh w h in
      (
        from-IsAllowed ord math range.width rw_ scale w f
            (ord.not_lt_trans a.min (m.max a.min b.min) scale wl bl f
              (math.max_left a.min b.min wl hl) low)
            (lt_le_trans ord math scale (m.min a.max b.max) a.max f bh wh high
              (math.min_left a.max b.max wh hh)),
        from-IsAllowed ord math range.height rh scale h f
            (ord.not_lt_trans b.min (m.max a.min b.min) scale hl bl f
              (math.max_right a.min b.min wl hl) low)
            (lt_le_trans ord math scale (m.min a.max b.max) b.max f bh hh high
              (math.min_right a.max b.max wh hh)),
      )

  pub both-IsIn :
      (range : ImageDimensionRange W) (raw_width raw_height scale : W)
      → IsAllowed range.width raw_width scale
      → IsAllowed range.height raw_height scale
      → IsIn ord math gap (both range raw_width raw_height) scale
  both-IsIn range rw_ rh scale w h =
      let a = from_rounded_output_bounds range.width rw_ in
      let b = from_rounded_output_bounds range.height rh in
      let (wl, wh) = IsAllowed-from ord math range.width rw_ scale w in
      let (hl, hh) = IsAllowed-from ord math range.height rh scale h in
      (w.finite, max_le ord math a.min b.min scale wl hl, lt_min ord math a.max b.max scale wh hh)

  not_negative :
      (range : ImageDimensionRange W) (raw_width raw_height : W)
      → IsApart range.width raw_width
      → IsApart range.height raw_height
      → ((both range raw_width raw_height).min <? n.nought) ≡ false
  unfolding from_rounded_output_bounds
  not_negative range rw_ rh w h =
      let a = from_rounded_output_bounds range.width rw_ in
      let b = from_rounded_output_bounds range.height rh in
      let (wl, _) = from-finite ord math range.width rw_ w in
      let (hl, _) = from-finite ord math range.height rh h in
      ord.not_lt_trans n.nought a.min (m.max a.min b.min) ord.nought_finite wl
        (max_finite ord math a.min b.min wl hl)
        (math.max_left n.nought (lowest range.width rw_) ord.nought_finite w.lowest_finite)
        (math.max_left a.min b.min wl hl)

  preferred-low :
      (range : ImageDimensionRange W) (raw_width raw_height : W)
      → IsApart range.width raw_width
      → IsApart range.height raw_height
      → (m.max (n.div range.width.min raw_width) (n.div range.height.min raw_height)
          <? (both range raw_width raw_height).min)
        ≡ false
  preferred-low range rw_ rh w h =
      let a = from_rounded_output_bounds range.width rw_ in
      let b = from_rounded_output_bounds range.height rh in
      let p = n.div range.width.min rw_ in
      let q = n.div range.height.min rh in
      let top = max_finite ord math p q w.min_finite h.min_finite in
      let (wl, _) = from-finite ord math range.width rw_ w in
      let (hl, _) = from-finite ord math range.height rh h in
      max_le ord math a.min b.min (m.max p q)
        (ord.not_lt_trans a.min p (m.max p q) wl w.min_finite top
          (min-from ord math range.width rw_ w) (math.max_left p q w.min_finite h.min_finite))
        (ord.not_lt_trans b.min q (m.max p q) hl h.min_finite top
          (min-from ord math range.height rh h) (math.max_right p q w.min_finite h.min_finite))

  preferred-high :
      (range : ImageDimensionRange W) (raw_width raw_height : W)
      → IsApart range.width raw_width
      → IsApart range.height raw_height
      → (m.min (n.div range.width.max raw_width) (n.div range.height.max raw_height)
          <? (both range raw_width raw_height).max)
        ≡ true
  preferred-high range rw_ rh w h =
      let a = from_rounded_output_bounds range.width rw_ in
      let b = from_rounded_output_bounds range.height rh in
      let p = n.div range.width.max rw_ in
      let q = n.div range.height.max rh in
      let bottom = min_finite ord math p q w.max_finite h.max_finite in
      let (_, wh) = from-finite ord math range.width rw_ w in
      let (_, hh) = from-finite ord math range.height rh h in
      lt_min ord math a.max b.max (m.min p q)
        (le_lt_trans ord math (m.min p q) p a.max bottom w.max_finite wh
          (math.min_left p q w.max_finite h.max_finite) (max-from ord math range.width rw_ w))
        (le_lt_trans ord math (m.min p q) q b.max bottom h.max_finite hh
          (math.min_right p q w.max_finite h.max_finite) (max-from ord math range.height rh h))

  -- No scale is in a range without numbers.
  pub closed :
      (range : ImageDimensionRange W) (raw_width raw_height scale : W)
      → IsApart range.width raw_width
      → IsApart range.height raw_height
      → ((both range raw_width raw_height).max ≤? (both range raw_width raw_height).min) ≡ true
      → IsAllowed range.width raw_width scale
      → ¬ IsAllowed range.height raw_height scale
  closed range rw_ rh scale w h empty aw ah =
      let s = both range rw_ rh in
      let (low, high) = both-finite range rw_ rh w h in
      let (f, above, below) = both-IsIn range rw_ rh scale aw ah in
      let lt = le_lt_trans ord math s.min scale s.max low f high above below in
      ground (arith, ord.le-eq-not-lt s.max s.min high low)

  pub both-IsOpen :
      (range : ImageDimensionRange W) (raw_width raw_height : W)
      → IsApart range.width raw_width
      → IsApart range.height raw_height
      → ((both range raw_width raw_height).min <? (both range raw_width raw_height).max) ≡ true
      → IsOpen ord math gap (both range raw_width raw_height)
  both-IsOpen range rw_ rh w h lt =
      let s = both range rw_ rh in
      let (low, high) = both-finite range rw_ rh w h in
      record {
        min_finite = low;
        max_finite = high;
        apart = lt;
        positive =
            le_lt_trans ord math n.nought s.min s.max ord.nought_finite low high
              (not_negative range rw_ rh w h) lt;
      }

  pub both-resolve :
      (range : ImageDimensionRange W) (raw_width raw_height : W)
      → IsApart range.width raw_width
      → IsApart range.height raw_height
      → ((both range raw_width raw_height).min <? (both range raw_width raw_height).max) ≡ true
      → IsIn ord math gap
          (both range raw_width raw_height)
          (resolve_scale range raw_width raw_height (both range raw_width raw_height))
  both-resolve range rw_ rh w h lt =
      resolve-IsIn ord math gap range rw_ rh (both range rw_ rh) (both-IsOpen range rw_ rh w h lt) w
        h (preferred-low range rw_ rh w h) (preferred-high range rw_ rh w h)
