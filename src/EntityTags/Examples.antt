-- ===== src/EntityTags/Examples.antt =====
-- Tags with names that are compared by their lengths.
use touhou_cloud_music_thcdb.Common.{
  ℕ, ◌≡◌, refl, true, false, List, [], ◌∷◌, none, Text, codes, ℤ, pos, negsuc, length, ltb,
  if◌then◌else◌, arith,
}
use touhou_cloud_music_thcdb.EntityTags.{
  Sign, below, same, above, is_above, EntityTagAggregate, high, low, sort_entity_tags, compare_tags,
  sort, insert, sign_of_difference,
}
use touhou_cloud_music_thcdb.EntityTags.Voting.{
  Event, clicked_vote, clicked_remove, settled, after, new_votes, is_pending, vote_tag,
}
use touhou_cloud_music_thcdb.EntityTags.Pending.{overlapping_votes}

abbrev by_length : Text → Text → Sign
by_length s t =
    if ltb (length s) (length t) then below else if ltb (length t) (length s) then above else same

by_length-flip : (s t : Text) → is_above (by_length s t) ≡ true → is_above (by_length t s) ≡ false
by_length-flip s t h = ground arith

abbrev tag : ℕ → ℕ → ℤ → EntityTagAggregate
tag id count relevance = record {
  id = id;
  name = codes "x";
  count = count;
  relevance = relevance;
  user_vote = none;
}

abbrev tags : List EntityTagAggregate
tags = tag 1 5 (pos 2) ∷ tag 2 7 (negsuc 0) ∷ tag 3 9 (pos 2) ∷ []

sorted_tags :
    sort_entity_tags by_length tags ≡ tag 3 9 (pos 2) ∷ tag 1 5 (pos 2) ∷ tag 2 7 (negsuc 0) ∷ []
unfolding sort_entity_tags compare_tags sort insert sign_of_difference
sorted_tags = refl

abbrev clicks : List Event
clicks = clicked_vote 1 high ∷ settled 0 true ∷ clicked_remove 1 ∷ []

overlapping_votes_example :
    let both = after (clicked_vote 2 low) (after (clicked_vote 1 high) new_votes) in
    let one_left = after (settled 1 true) both in
    (both.requests ≡ vote_tag 2 low ∷ vote_tag 1 high ∷ [])
    × (is_pending both 1 ≡ false)
    × (one_left.requests ≡ vote_tag 2 low ∷ [])
    × (is_pending one_left 2 ≡ false)
overlapping_votes_example = overlapping_votes 1 2 high low true (λ e. omega arith)
