-- ===== src/EntityTags.antt =====
-- Tags of an entity: web/frontend/src/view/entity_tags/model.ts. A finite number is its multiple of
-- the least positive one, an integer; so the sign of a difference is that of the comparison.
pub mod Sorting
pub mod Scores
pub mod Voting
pub mod Pending
mod Examples
use touhou_cloud_music_thcdb.Common.{
  ℕ, Bool, true, false, not, Option, none, some, List, [], ◌∷◌, Text, ℤ, pos, negsuc, ltb, ltb_ℤ,
  has, map, if◌then◌else◌,
}

pub data EntityTagVoteValue : Type 0 where
  high : EntityTagVoteValue
  medium : EntityTagVoteValue
  low : EntityTagVoteValue
  veto : EntityTagVoteValue

-- A label is translated when it is shown.
pub record EntityTagVoteOption : Type 0 where
  pub value : EntityTagVoteValue
  pub user_vote : ℤ

unfoldable pub entity_tag_vote_options : List EntityTagVoteOption
entity_tag_vote_options =
    record { value = high; user_vote = pos 3 }
    ∷ record { value = medium; user_vote = pos 2 }
    ∷ record { value = low; user_vote = pos 1 }
    ∷ record { value = veto; user_vote = negsuc 2 }
    ∷ []

-- The fields of an aggregate that are read here.
pub record EntityTagAggregate : Type 0 where
  pub id : ℕ
  pub name : Text
  pub count : ℕ
  pub relevance : ℤ
  pub user_vote : Option ℤ

-- The sign of a number that a comparison returns.
pub data Sign : Type 0 where
  below : Sign
  same : Sign
  above : Sign

-- `> 0`
abbrev pub is_above : Sign → Bool
is_above below = false
is_above same = false
is_above above = true

-- `right - left`
unfoldable pub sign_of_difference : ℤ → ℤ → Sign
sign_of_difference right left =
    if ltb_ℤ right left then below else if ltb_ℤ left right then above else same

-- `Array.prototype.sort` keeps the order of items that compare as the same.
unfoldable pub insert {ℓ} : {A : Type ℓ} → (A → A → Sign) → A → List A → List A
insert compare x [] = x ∷ []
insert compare x (y ∷ ys) =
    let rest = insert compare x ys in if is_above (compare x y) then y ∷ rest else x ∷ y ∷ ys

unfoldable pub sort {ℓ} : {A : Type ℓ} → (A → A → Sign) → List A → List A
sort compare [] = []
sort compare (x ∷ xs) = insert compare x (sort compare xs)

module _ (locale_compare : Text → Text → Sign) where
  -- The comparison of `sortEntityTags`; a difference that is not 0 has a sign.
  unfoldable pub compare_tags : EntityTagAggregate → EntityTagAggregate → Sign
  unfolding sign_of_difference
  compare_tags left right = elim (sign_of_difference right.relevance left.relevance) [
    | below ↦ below
    | above ↦ above
    | same ↦ elim (sign_of_difference (pos right.count) (pos left.count)) [
      | below ↦ below
      | above ↦ above
      | same ↦ locale_compare left.name right.name
    ]
  ]

  unfoldable pub sort_entity_tags : List EntityTagAggregate → List EntityTagAggregate
  sort_entity_tags tags = sort compare_tags tags

unfoldable pub create_entity_tag_filter : List EntityTagAggregate → ℕ → Bool
create_entity_tag_filter selected_tags candidate =
    not (has (map (λ tag. tag.id) selected_tags) candidate)

-- `===` on numbers
unfoldable pub is_number : ℤ → ℤ → Bool
is_number a b = if ltb_ℤ a b then false else if ltb_ℤ b a then false else true

unfoldable pub score_from_user_vote : Option ℤ → Option EntityTagVoteValue
unfolding is_number
score_from_user_vote none = none
score_from_user_vote (some value) =
    if is_number value (negsuc 2)
    then some veto
    else if is_number value (pos 1)
    then some low
    else if is_number value (pos 2)
    then some medium
    else if is_number value (pos 3)
    then some high
    else none
