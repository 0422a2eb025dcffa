-- ===== src/ImageCrop/Numbers.antt =====
-- What the cropping of images does with numbers: the operations of ECMAScript, rounding included,
-- as an interface, and the laws of its comparisons.
use touhou_cloud_music_thcdb.Common.{
  ℕ, ◌+◌, ◌-◌, ◌*◌, ◌/◌, ◌≡◌, Bool, true, false, not, ◌&&◌, Option, none, some, ltb, leb, ◌==◌,
  is_some, if◌then◌else◌, arith,
}

pub record Number {ℓ} (W : Type ℓ) : Type ℓ where
  pub nought : W
  pub is_finite : W → Bool
  pub lt : W → W → Bool
  pub le : W → W → Bool
  pub same : W → W → Bool
  pub add : W → W → W
  pub sub : W → W → W
  pub mul : W → W → W
  pub div : W → W → W

-- `Number.isFinite`, `<`, `<=` and `===`
abbrev pub is_finite {ℓ} : {W : Type ℓ} ⦃n : Number W⦄ → W → Bool
is_finite ⦃n⦄ = n.is_finite

infix 50 ◌<?◌ ◌≤?◌ ◌=?◌
abbrev pub ◌<?◌ {ℓ} : {W : Type ℓ} ⦃n : Number W⦄ → W → W → Bool
◌<?◌ ⦃n⦄ = n.lt

abbrev pub ◌≤?◌ {ℓ} : {W : Type ℓ} ⦃n : Number W⦄ → W → W → Bool
◌≤?◌ ⦃n⦄ = n.le

abbrev pub ◌=?◌ {ℓ} : {W : Type ℓ} ⦃n : Number W⦄ → W → W → Bool
◌=?◌ ⦃n⦄ = n.same

-- The truth value of a number: not 0, and not NaN, which is not `===` itself.
abbrev pub truthy {ℓ} : {W : Type ℓ} ⦃n : Number W⦄ → W → Bool
truthy ⦃n⦄ a = n.same a a && not (n.same a n.nought)

-- Finite numbers are in order. Two of them are `===` when neither is below the other, and then they
-- are one number, unless they are the two zeros.
pub record IsOrdered {ℓ} (W : Type ℓ) ⦃n : Number W⦄ : Type ℓ where
  pub nought_finite : n.is_finite n.nought ≡ true
  pub lt_asym : (a b : W) → n.lt a b ≡ true → n.lt b a ≡ false
  pub lt_irrefl : (a : W) → n.lt a a ≡ false
  pub le-eq-not-lt :
      (a b : W) → n.is_finite a ≡ true → n.is_finite b ≡ true → n.le a b ≡ not (n.lt b a)
  pub not_lt_trans :
      (a b c : W)
      → n.is_finite a ≡ true
      → n.is_finite b ≡ true
      → n.is_finite c ≡ true
      → n.lt b a ≡ false
      → n.lt c b ≡ false
      → n.lt c a ≡ false
  pub same-eq-not-lt :
      (a b : W)
      → n.is_finite a ≡ true
      → n.is_finite b ≡ true
      → n.same a b ≡ (not (n.lt a b) && not (n.lt b a))
  pub same_sound :
      (a b : W)
      → n.is_finite a ≡ true
      → n.is_finite b ≡ true
      → n.same a b ≡ true
      → n.lt n.nought a ≡ true
      → a ≡ b

-- Numbers for the examples: those that are whole and not negative; any other is `none`.
abbrev pub Whole : Type 0
Whole = Option ℕ

abbrev pub compared : (ℕ → ℕ → Bool) → Whole → Whole → Bool
compared f (some a) (some b) = f a b
compared f _ _ = false

abbrev pub combined : (ℕ → ℕ → Option ℕ) → Whole → Whole → Whole
combined f (some a) (some b) = f a b
combined f _ _ = none

instance abbrev pub whole_number : Number Whole
whole_number = record {
  nought = some 0;
  is_finite = is_some;
  lt = compared ltb;
  le = compared leb;
  same = compared λ a b. a == b;
  add = combined λ a b. some (a + b);
  sub = combined λ a b. if leb b a then some (a - b) else none;
  mul = combined λ a b. some (a * b);
  div = combined λ a b. if b == 0 then none else some (a / b);
}

pub Whole-IsOrdered : IsOrdered Whole
Whole-IsOrdered = ground arith
