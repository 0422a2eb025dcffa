-- ===== src/EntityTags/Voting.antt =====
-- Votes on the tags of an entity: `vote`, `removeVote` and the rows of
-- web/frontend/src/view/entity_tags/EntityTagsSection.tsx. A request and what follows it are split:
-- `begin` up to the request, `settle` from its end, with whether it succeeded; the reload that
-- follows a success ends in the same event. A pending key is its template with the id filled in.
use touhou_cloud_music_thcdb.Common.{
  ℕ, zero, suc, Bool, true, false, not, ◌&&◌, ◌||◌, Option, none, some, List, [], ◌∷◌, ◌==◌,
  if◌then◌else◌,
}
use touhou_cloud_music_thcdb.EntityTags.{
  EntityTagVoteValue, high, medium, low, veto, EntityTagAggregate, score_from_user_vote,
}

pub data PendingKey : Type 0 where
  vote_key : ℕ → PendingKey
  remove_key : ℕ → PendingKey

-- A request on its way: the body of a vote, or that of a removal.
pub data Request : Type 0 where
  vote_tag : (tag_id : ℕ) (score : EntityTagVoteValue) → Request
  delete_vote : (tag_id : ℕ) → Request

-- The signal, the requests on their way, and how often the tags were loaded again.
pub record Votes : Type 0 where
  pub pending_key : Option PendingKey
  pub requests : List Request
  pub reloads : ℕ

unfoldable pub new_votes : Votes
new_votes = record { pending_key = none; requests = []; reloads = 0 }

unfoldable pub begin_vote : ℕ → EntityTagVoteValue → Votes → Votes
begin_vote tag_id score s = record s {
  pending_key = some (vote_key tag_id);
  requests = vote_tag tag_id score ∷ s.requests;
}

unfoldable pub begin_remove_vote : ℕ → Votes → Votes
begin_remove_vote tag_id s = record s {
  pending_key = some (remove_key tag_id);
  requests = delete_vote tag_id ∷ s.requests;
}

-- The n-th request from the last is no longer on its way.
unfoldable pub drop_request : ℕ → List Request → List Request
drop_request n [] = []
drop_request zero (r ∷ requests) = requests
drop_request (suc n) (r ∷ requests) = r ∷ drop_request n requests

-- The end of a request: the tags are loaded again on a success, and the key is cleared anyway.
unfoldable pub settle : ℕ → Bool → Votes → Votes
settle n success s = record {
  pending_key = none;
  requests = drop_request n s.requests;
  reloads = if success then suc s.reloads else s.reloads;
}

abbrev pub is_vote_key : Option PendingKey → ℕ → Bool
is_vote_key none id = false
is_vote_key (some (vote_key n)) id = n == id
is_vote_key (some (remove_key n)) id = false

abbrev pub is_remove_key : Option PendingKey → ℕ → Bool
is_remove_key none id = false
is_remove_key (some (vote_key n)) id = false
is_remove_key (some (remove_key n)) id = n == id

-- The row of a tag: its buttons are disabled.
unfoldable pub is_pending : Votes → ℕ → Bool
is_pending s id = is_vote_key s.pending_key id || is_remove_key s.pending_key id

abbrev pub same_score : EntityTagVoteValue → EntityTagVoteValue → Bool
same_score high high = true
same_score medium medium = true
same_score low low = true
same_score veto veto = true
same_score _ _ = false

abbrev pub is_score : Option EntityTagVoteValue → EntityTagVoteValue → Bool
is_score none value = false
is_score (some v) value = same_score v value

-- The row of a tag: the button of this value is dimmed.
unfoldable pub vote_pending : Votes → EntityTagAggregate → EntityTagVoteValue → Bool
vote_pending s tag value =
    is_vote_key s.pending_key tag.id && not (is_score (score_from_user_vote tag.user_vote) value)

-- A click on a row, which a disabled button does not pass on, and the end of the n-th request.
pub data Event : Type 0 where
  clicked_vote : ℕ → EntityTagVoteValue → Event
  clicked_remove : ℕ → Event
  settled : ℕ → Bool → Event

unfoldable pub after : Event → Votes → Votes
after (clicked_vote id score) s = if is_pending s id then s else begin_vote id score s
after (clicked_remove id) s = if is_pending s id then s else begin_remove_vote id s
after (settled n success) s = settle n success s

-- The first event comes first.
unfoldable pub after_all : List Event → Votes → Votes
after_all [] s = s
after_all (e ∷ es) s = after_all es (after e s)
