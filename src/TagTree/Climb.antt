-- ===== src/TagTree/Climb.antt =====
-- The climb from a hidden item to its nearest visible ancestor.
use touhou_cloud_music_thcdb.Common.{
  ℕ, zero, suc, ◌<◌, ◌≡◌, ap, inl, inr, true, false, Option, none, some, List, has, or_else,
  Bool-cases, Option-cases, arith,
}
use mathlib.Core.Path.{subst}
use touhou_cloud_music_thcdb.TagTree.{TagTreeIndex, get, parent_of, climb}
use touhou_cloud_music_thcdb.TagTree.Index.{IsRanked}

-- `a` is the first visible one among the ancestors of `k`.
pub data Nearest (visible : List ℕ) (parents : List (ℕ × Option ℕ)) : ℕ → ℕ → Type 0 where
  next :
      {k p : ℕ} → parent_of parents k ≡ some p → has visible p ≡ true → Nearest visible parents k p
  up :
      {k p a : ℕ}
      → parent_of parents k ≡ some p
      → has visible p ≡ false
      → Nearest visible parents p a
      → Nearest visible parents k a

-- What the climb from `k` has found.
abbrev pub Found : List ℕ → List (ℕ × Option ℕ) → ℕ → Option ℕ → Type 0
Found visible parents k (some a) = Nearest visible parents k a
Found visible parents k none = (a : ℕ) → ¬ Nearest visible parents k a

module _ (visible : List ℕ) (ix : TagTreeIndex) (ranked : IsRanked ix) where
  nothing_above :
      (k a : ℕ) → parent_of ix.parent_by_id k ≡ none → ¬ Nearest visible ix.parent_by_id k a
  nothing_above k a e (next h v) = cc
  nothing_above k a e (up h v n) = cc

  none_above :
      (k p a : ℕ)
      → parent_of ix.parent_by_id k ≡ some p
      → has visible p ≡ false
      → ¬ Nearest visible ix.parent_by_id p a
      → ¬ Nearest visible ix.parent_by_id k a
  none_above k p a e h n (next {p = q} e' v) =
      let same : q ≡ p = cc in absurd (cc (ap (has visible) same))
  none_above k p a e h n (up {p = q} e' v m) =
      let same : q ≡ p = cc in n (subst (λ x. Nearest visible ix.parent_by_id x a) same m)

  Found-above :
      (k p : ℕ) (r : Option ℕ)
      → parent_of ix.parent_by_id k ≡ some p
      → has visible p ≡ false
      → Found visible ix.parent_by_id p r
      → Found visible ix.parent_by_id k r
  Found-above k p (some a) e h n = up e h n
  Found-above k p none e h n = λ a. none_above k p a e h (n a)

  -- With more fuel than the depth of `k` the climb ends, and finds what there is.
  pub climb-Found :
      (fuel k : ℕ)
      → or_else (get ix.depth_by_id k) 0 < fuel
      → (r : Option ℕ) × (climb fuel visible ix.parent_by_id k ≡ some r)
        × Found visible ix.parent_by_id k r
  unfolding climb
  climb-Found zero k h = absurd (omega arith)
  climb-Found (suc fuel) k h = elim (Option-cases (parent_of ix.parent_by_id k)) [
    | inl top ↦ (none, ground arith, λ a. nothing_above k a top)
    | inr (p, e) ↦
        let (d, above, here) = ranked k p e in
        elim (Bool-cases (has visible p)) [
          | inl shown ↦ (some p, ground arith, next e shown)
          | inr hidden ↦
              let (r, found, n) = climb-Found fuel p (ground arith) in
              (r, ground arith, Found-above k p r e hidden n)
        ]
  ]
