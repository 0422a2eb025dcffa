-- ===== src/ImageCrop/Scale.antt =====
-- The scale of the output: between the bounds that keep both sizes in their range.
use touhou_cloud_music_thcdb.Common.{◌≡◌, ◌⊎◌, inl, inr, true, false, arith}
use touhou_cloud_music_thcdb.ImageCrop.Numbers.{Number, IsOrdered, is_finite, ◌<?◌}
use touhou_cloud_music_thcdb.ImageCrop.OutputSize.{MathOf, ScaleRange, from_rounded_output_bounds}

-- `1` is finite, and `Math.max` and `Math.min` of finite numbers are the upper and the lower one.
pub record IsMath (W : Type 0) ⦃n : Number W⦄ ⦃m : MathOf W⦄ : Type 0 where
  pub one_finite : is_finite m.one ≡ true
  pub max_one_of : (a b : W) → (m.max a b ≡ a) ⊎ (m.max a b ≡ b)
  pub max_left : (a b : W) → is_finite a ≡ true → is_finite b ≡ true → (m.max a b <? a) ≡ false
  pub max_right : (a b : W) → is_finite a ≡ true → is_finite b ≡ true → (m.max a b <? b) ≡ false
  pub min_one_of : (a b : W) → (m.min a b ≡ a) ⊎ (m.min a b ≡ b)
  pub min_left : (a b : W) → is_finite a ≡ true → is_finite b ≡ true → (a <? m.min a b) ≡ false
  pub min_right : (a b : W) → is_finite a ≡ true → is_finite b ≡ true → (b <? m.min a b) ≡ false

-- The number that is put just below an upper bound is below it.
pub record HasBelow (W : Type 0) ⦃n : Number W⦄ ⦃m : MathOf W⦄ : Type 0 where
  pub below_finite :
      (high : W)
      → is_finite high ≡ true
      → (n.nought <? high) ≡ true
      → is_finite (n.sub high (n.mul m.epsilon (m.max m.one (m.abs high)))) ≡ true
  pub below_lt :
      (high : W)
      → is_finite high ≡ true
      → (n.nought <? high) ≡ true
      → (n.sub high (n.mul m.epsilon (m.max m.one (m.abs high))) <? high) ≡ true

module _ {W : Type 0} ⦃n : Number W⦄ ⦃m : MathOf W⦄ where
  -- The scales between which the rounded size is in its range, and those that are preferred.
  abbrev pub lowest : ScaleRange W → W → W
  lowest range raw = n.div (n.sub range.min m.half) raw

  abbrev pub highest : ScaleRange W → W → W
  highest range raw = n.div (n.add range.max m.half) raw

  -- The quotients are finite, and rounding leaves them apart.
  pub record IsApart (range : ScaleRange W) (raw : W) : Type 0 where
    pub lowest_finite : is_finite (lowest range raw) ≡ true
    pub min_finite : is_finite (n.div range.min raw) ≡ true
    pub max_finite : is_finite (n.div range.max raw) ≡ true
    pub highest_finite : is_finite (highest range raw) ≡ true
    pub not_negative : (n.div range.min raw <? n.nought) ≡ false
    pub lowest_le : (n.div range.min raw <? lowest range raw) ≡ false
    pub lt_highest : (n.div range.max raw <? highest range raw) ≡ true

  -- A scale that this range allows.
  pub record IsAllowed (range : ScaleRange W) (raw scale : W) : Type 0 where
    pub finite : is_finite scale ≡ true
    pub not_negative : (scale <? n.nought) ≡ false
    pub lower : (scale <? lowest range raw) ≡ false
    pub upper : (scale <? highest range raw) ≡ true

  module _ (ord : IsOrdered W) (math : IsMath W) where
    pub le_lt_trans :
        (a b c : W)
        → is_finite a ≡ true
        → is_finite b ≡ true
        → is_finite c ≡ true
        → (b <? a) ≡ false
        → (b <? c) ≡ true
        → (a <? c) ≡ true
    le_lt_trans a b c fa fb fc h k = ground (arith, ord.not_lt_trans c a b fc fa fb)

    pub lt_le_trans :
        (a b c : W)
        → is_finite a ≡ true
        → is_finite b ≡ true
        → is_finite c ≡ true
        → (a <? b) ≡ true
        → (c <? b) ≡ false
        → (a <? c) ≡ true
    lt_le_trans a b c fa fb fc h k = ground (arith, ord.not_lt_trans b c a fb fc fa)

    pub max_finite :
        (a b : W) → is_finite a ≡ true → is_finite b ≡ true → is_finite (m.max a b) ≡ true
    max_finite a b fa fb = elim (math.max_one_of a b) [ inl p ↦ rw p fa | inr p ↦ rw p fb ]

    pub min_finite :
        (a b : W) → is_finite a ≡ true → is_finite b ≡ true → is_finite (m.min a b) ≡ true
    min_finite a b fa fb = elim (math.min_one_of a b) [ inl p ↦ rw p fa | inr p ↦ rw p fb ]

    pub max_le : (a b c : W) → (c <? a) ≡ false → (c <? b) ≡ false → (c <? m.max a b) ≡ false
    max_le a b c h k = elim (math.max_one_of a b) [ inl p ↦ rw p h | inr p ↦ rw p k ]

    pub max_lt : (a b c : W) → (a <? c) ≡ true → (b <? c) ≡ true → (m.max a b <? c) ≡ true
    max_lt a b c h k = elim (math.max_one_of a b) [ inl p ↦ rw p h | inr p ↦ rw p k ]

    pub lt_min : (a b c : W) → (c <? a) ≡ true → (c <? b) ≡ true → (c <? m.min a b) ≡ true
    lt_min a b c h k = elim (math.min_one_of a b) [ inl p ↦ rw p h | inr p ↦ rw p k ]

    pub le_min : (a b c : W) → (a <? c) ≡ false → (b <? c) ≡ false → (m.min a b <? c) ≡ false
    le_min a b c h k = elim (math.min_one_of a b) [ inl p ↦ rw p h | inr p ↦ rw p k ]

    abbrev pub from : ScaleRange W → W → ScaleRange W
    from = from_rounded_output_bounds

    pub from-finite :
        (range : ScaleRange W) (raw : W)
        → IsApart range raw
        → (is_finite (from range raw).min ≡ true) × (is_finite (from range raw).max ≡ true)
    unfolding from_rounded_output_bounds
    from-finite range raw a =
        (max_finite n.nought (lowest range raw) ord.nought_finite a.lowest_finite, a.highest_finite)

    pub from-IsAllowed :
        (range : ScaleRange W) (raw scale : W)
        → IsApart range raw
        → is_finite scale ≡ true
        → (scale <? (from range raw).min) ≡ false
        → (scale <? (from range raw).max) ≡ true
        → IsAllowed range raw scale
    unfolding from_rounded_output_bounds
    from-IsAllowed range raw scale a f h k =
        let top = max_finite n.nought (lowest range raw) ord.nought_finite a.lowest_finite in
        record {
          finite = f;
          not_negative =
              ord.not_lt_trans n.nought (m.max n.nought (lowest range raw)) scale ord.nought_finite
                top f (math.max_left n.nought (lowest range raw) ord.nought_finite a.lowest_finite)
                h;
          lower =
              ord.not_lt_trans (lowest range raw) (m.max n.nought (lowest range raw)) scale
                a.lowest_finite top f
                (math.max_right n.nought (lowest range raw) ord.nought_finite a.lowest_finite) h;
          upper = k;
        }

    pub IsAllowed-from :
        (range : ScaleRange W) (raw scale : W)
        → IsAllowed range raw scale
        → ((scale <? (from range raw).min) ≡ false) × ((scale <? (from range raw).max) ≡ true)
    unfolding from_rounded_output_bounds
    IsAllowed-from range raw scale i =
        (max_le n.nought (lowest range raw) scale i.not_negative i.lower, i.upper)

    -- The smallest preferred scale is not below the bound, and the largest is.
    pub min-from :
        (range : ScaleRange W) (raw : W)
        → IsApart range raw
        → (n.div range.min raw <? (from range raw).min) ≡ false
    unfolding from_rounded_output_bounds
    min-from range raw a =
        max_le n.nought (lowest range raw) (n.div range.min raw) a.not_negative a.lowest_le

    pub max-from :
        (range : ScaleRange W) (raw : W)
        → IsApart range raw
        → (n.div range.max raw <? (from range raw).max) ≡ true
    unfolding from_rounded_output_bounds
    max-from range raw a = a.lt_highest
