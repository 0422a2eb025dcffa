-- ===== src/EntityTags/Scores.antt =====
-- Scores and the filter of the tags that can be added.
use touhou_cloud_music_thcdb.Common.{◌≡◌, ◌↔◌, inl, inr, true, some, ℤ, pos, negsuc, In, arith}
use touhou_cloud_music_thcdb.EntityTags.{
  EntityTagVoteValue, EntityTagVoteOption, entity_tag_vote_options, score_from_user_vote, is_number,
}

is_number_iff : (a b : ℤ) → (is_number a b ≡ true) ↔ (a ≡ b)
unfolding is_number
is_number_iff (pos m) (pos n) = ground arith
is_number_iff (pos m) (negsuc n) = ground arith
is_number_iff (negsuc m) (pos n) = ground arith
is_number_iff (negsuc m) (negsuc n) = ground arith

abbrev vote_option : EntityTagVoteValue → ℤ → EntityTagVoteOption
vote_option value vote = record { value = value; user_vote = vote }

score-option :
    (value : EntityTagVoteValue) (vote : ℤ)
    → score_from_user_vote (some vote) ≡ some value
    → In (vote_option value vote) entity_tag_vote_options
unfolding score_from_user_vote entity_tag_vote_options
score-option value vote h = ground (
  arith,
  is_number_iff vote (negsuc 2),
  is_number_iff vote (pos 1),
  is_number_iff vote (pos 2),
  is_number_iff vote (pos 3),
)

option-score :
    (value : EntityTagVoteValue) (vote : ℤ)
    → In (vote_option value vote) entity_tag_vote_options
    → score_from_user_vote (some vote) ≡ some value
unfolding score_from_user_vote entity_tag_vote_options is_number
option-score value vote (inl e) = cc
option-score value vote (inr (inl e)) = cc
option-score value vote (inr (inr (inl e))) = cc
option-score value vote (inr (inr (inr (inl e)))) = cc
option-score value vote (inr (inr (inr (inr h)))) = absurd h

-- A user's vote has a score exactly when an option of that score has that vote.
pub score_from_user_vote-options :
    (value : EntityTagVoteValue) (vote : ℤ)
    → (score_from_user_vote (some vote) ≡ some value)
      ↔ In (record { value = value; user_vote = vote }) entity_tag_vote_options
score_from_user_vote-options value vote = (score-option value vote, option-score value vote)
