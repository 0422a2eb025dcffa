-- ===== src/ImageCrop/Kept.antt =====
-- The selection stays in the image.
use touhou_cloud_music_thcdb.Common.{
  ℕ, suc, ◌≡◌, refl, true, false, Option, none, some, ap, ◌∙◌, inl, inr, arith, Bool-cases, sym,
}
use touhou_cloud_music_thcdb.ImageCrop.Numbers.{Number, IsOrdered, is_finite, ◌<?◌, ◌=?◌}
use touhou_cloud_music_thcdb.ImageCrop.Geometry.{Rect, is_unusable}
use touhou_cloud_music_thcdb.ImageCrop.Bounds.{
  IsUsable, IsInside, IsExact, room, usable, not_unusable,
}
use touhou_cloud_music_thcdb.ImageCrop.Clamp.{clamp_rect-IsInside}
use touhou_cloud_music_thcdb.ImageCrop.Selection.{
  ChangeEvent, custom, Handled, left, replaced, to_finite, handle_next, bound_change, handle_values,
  handle_sized, on_change, normalize_size_to_ratio_cover, is_same,
}

module _ {W : Type 0} ⦃n : Number W⦄ where
  -- The event of a selection that wants to be this rectangle.
  abbrev pub change_to : Rect W → ChangeEvent W
  change_to r =
      custom
        (some (record { x = some r.x; y = some r.y; width = some r.width; height = some r.height }))

  -- The selection after an event that is handled so.
  abbrev pub selected : Rect W → Handled W → Rect W
  selected r left = r
  selected r (replaced next) = next

  module _ (ord : IsOrdered W) where
    -- An event with a usable rectangle gets to the bounds.
    on_change-eq-bound :
        (fuel : ℕ) (r bounds : Rect W) (ratio : Option W)
        → IsUsable r
        → on_change fuel false (change_to r) (some bounds) ratio ≡ bound_change fuel r bounds ratio
    unfolding on_change to_finite handle_sized handle_values
    on_change-eq-bound fuel r bounds ratio u = ground (
      arith,
      ord.nought_finite,
      ord.le-eq-not-lt r.width n.nought,
      ord.le-eq-not-lt r.height n.nought,
    )

    same-equal :
        (a b : W)
        → is_finite a ≡ true
        → is_finite b ≡ true
        → (a =? b) ≡ true
        → ((a <? b) ≡ false) × ((b <? a) ≡ false)
    same-equal a b fa fb h = ground (arith, ord.same-eq-not-lt a b)

    -- A coordinate that is the same is inside as well.
    same_inside :
        (a b low high : W)
        → is_finite a ≡ true
        → is_finite b ≡ true
        → is_finite low ≡ true
        → is_finite high ≡ true
        → (a =? b) ≡ true
        → (a <? low) ≡ false
        → (high <? a) ≡ false
        → ((b <? low) ≡ false) × ((high <? b) ≡ false)
    same_inside a b low high fa fb fl fh s l h =
        let (ab, ba) = same-equal a b fa fb s in
        (ord.not_lt_trans low a b fl fa fb l ba, ord.not_lt_trans b a high fb fa fh ab h)

    same-IsInside :
        (next r bounds : Rect W) (ratio : Option W)
        → IsUsable bounds
        → IsExact bounds ratio
        → IsUsable next
        → IsUsable r
        → IsInside bounds next
        → is_same next r ≡ true
        → IsInside bounds r
    same-IsInside next r bounds ratio b e u v i h =
        let same_x : (next.x =? r.x) ≡ true = ground arith in
        let same_y : (next.y =? r.y) ≡ true = ground arith in
        let w : next.width ≡ r.width =
          ord.same_sound next.width r.width u.width_finite v.width_finite (ground arith)
            u.width_positive in
        let t : next.height ≡ r.height =
          ord.same_sound next.height r.height u.height_finite v.height_finite (ground arith)
            u.height_positive in
        let fits_w : (bounds.width <? r.width) ≡ false =
          ap (λ a. bounds.width <? a) (sym w) ∙ i.width_fits in
        let fits_t : (bounds.height <? r.height) ≡ false =
          ap (λ a. bounds.height <? a) (sym t) ∙ i.height_fits in
        let (l, g) =
          same_inside next.x r.x bounds.x (room bounds.x bounds.width r.width) u.x_finite v.x_finite
            b.x_finite (e.across r.width v.width_finite fits_w).0 same_x i.left
            (ap (λ a. room bounds.x bounds.width a <? next.x) (sym w) ∙ i.right) in
        let (p, q) =
          same_inside next.y r.y bounds.y (room bounds.y bounds.height r.height) u.y_finite
            v.y_finite b.y_finite (e.down r.height v.height_finite fits_t).0 same_y i.top
            (ap (λ a. room bounds.y bounds.height a <? next.y) (sym t) ∙ i.bottom) in
        record {
          left = l;
          right = g;
          top = p;
          bottom = q;
          width_fits = fits_w;
          height_fits = fits_t;
        }

    bound_change-IsInside :
        (k : ℕ) (r bounds : Rect W) (ratio : Option W)
        → IsUsable r
        → is_unusable bounds ≡ false
        → IsExact bounds ratio
        → (h : Handled W) × (bound_change (suc (suc k)) r bounds ratio ≡ some h)
          × IsInside bounds (selected r h)
          × (is_unusable (selected r h) ≡ false)
    unfolding bound_change handle_next
    bound_change-IsInside k r bounds ratio u bad e =
        let s = normalize_size_to_ratio_cover r.width r.height ratio in
        let wanted : Rect W = record { x = r.x; y = r.y; width = s.width; height = s.height } in
        let (next, clamped, used, inside, kept) =
          clamp_rect-IsInside ord k wanted bounds ratio bad e in
        elim (Bool-cases (is_same next r)) [
          | inl s ↦ (
            left,
            rw (clamped, s) refl,
            same-IsInside next r bounds ratio (usable ord bounds bad) e (usable ord next used) u
                inside s,
            not_unusable ord r u,
          )
          | inr d ↦ (replaced next, rw (clamped, d) refl, inside, used)
        ]

    settled :
        (k : ℕ) (r next bounds : Rect W)
        → is_unusable next ≡ false
        → is_unusable bounds ≡ false
        → IsExact bounds none
        → IsInside bounds next
        → on_change (suc (suc k)) false (change_to next) (some bounds) none ≡ some left
    unfolding bound_change handle_next normalize_size_to_ratio_cover
    settled k r next bounds used bad e i =
        let u = usable ord next used in
        let (again, clamped, _, _, kept) = clamp_rect-IsInside ord k next bounds none bad e in
        let same_next : again ≡ next = kept used i in
        on_change-eq-bound (suc (suc k)) next bounds none u
        ∙ rw (clamped, same_next)
            (ground (
              arith,
              ord.lt_irrefl next.x,
              ord.lt_irrefl next.y,
              ord.lt_irrefl next.width,
              ord.lt_irrefl next.height,
              ord.same-eq-not-lt next.x next.x,
              ord.same-eq-not-lt next.y next.y,
              ord.same-eq-not-lt next.width next.width,
              ord.same-eq-not-lt next.height next.height,
            ))

    -- If the bounds are usable and rounding does not get in the way of their sums, differences and
    -- ratio, and the fuel is two or more: a change of the selection to a usable rectangle is left
    -- or replaced so that the selection, usable, has no edge outside the bounds.
    pub on_change-IsInside :
        (k : ℕ) (r bounds : Rect W) (ratio : Option W)
        → is_unusable r ≡ false
        → is_unusable bounds ≡ false
        → IsExact bounds ratio
        → (h : Handled W) × (on_change (suc (suc k)) false (change_to r) (some bounds) ratio
            ≡ some h)
          × IsInside bounds (selected r h)
          × (is_unusable (selected r h) ≡ false)
    on_change-IsInside k r bounds ratio good bad e =
        let u = usable ord r good in
        let (h, handled, inside, used) = bound_change-IsInside k r bounds ratio u bad e in
        (h, on_change-eq-bound (suc (suc k)) r bounds ratio u ∙ handled, inside, used)

    -- Settled
    pub on_change-settles :
        (k : ℕ) (r bounds : Rect W)
        → is_unusable r ≡ false
        → is_unusable bounds ≡ false
        → IsExact bounds none
        → (h : Handled W) × (on_change (suc (suc k)) false (change_to r) (some bounds) none
            ≡ some h)
          × (on_change (suc (suc k)) false (change_to (selected r h)) (some bounds) none
              ≡ some left)
    on_change-settles k r bounds good bad e =
        let (h, handled, inside, used) = on_change-IsInside k r bounds none good bad e in
        (h, handled, settled k r (selected r h) bounds used bad e inside)
