-- ===== src/EntityTags/Pending.antt =====
-- Which rows are pending while requests are on their way.
use touhou_cloud_music_thcdb.Common.{
  ℕ, ◌≡◌, refl, ◌≢◌, ◌⊎◌, inl, inr, true, false, Bool, none, some, List, [], ◌∷◌, arith, Bool-cases,
}
use touhou_cloud_music_thcdb.EntityTags.{EntityTagVoteValue}
use touhou_cloud_music_thcdb.EntityTags.Voting.{
  PendingKey, vote_key, remove_key, Request, vote_tag, delete_vote, Votes, new_votes, begin_vote,
  begin_remove_vote, drop_request, settle, is_pending, Event, clicked_vote, clicked_remove, settled,
  after, after_all,
}

abbrev pub key_of : Request → PendingKey
key_of (vote_tag id score) = vote_key id
key_of (delete_vote id) = remove_key id

-- The pending key, if there is one, is that of the request that was sent last.
abbrev pub IsOfLast : Votes → Type 0
IsOfLast s =
    (s.pending_key ≡ none)
    ⊎ ((r : Request) × (rs : List Request) × (s.requests ≡ r ∷ rs)
        × (s.pending_key ≡ some (key_of r)))

after-IsOfLast : (e : Event) (s : Votes) → IsOfLast s → IsOfLast (after e s)
unfolding after begin_vote begin_remove_vote settle
after-IsOfLast (clicked_vote id score) s v = elim (Bool-cases (is_pending s id)) [
  | inl e ↦ simp (after, e) v
  | inr e ↦ simp (after, e) (inr (vote_tag id score, s.requests, refl, refl))
]
after-IsOfLast (clicked_remove id) s v = elim (Bool-cases (is_pending s id)) [
  | inl e ↦ simp (after, e) v
  | inr e ↦ simp (after, e) (inr (delete_vote id, s.requests, refl, refl))
]
after-IsOfLast (settled n success) s v = inl refl

-- After any clicks and ends of requests, a pending key is that of the request that was sent last.
pub after_all-IsOfLast : (es : List Event) → IsOfLast (after_all es new_votes)
unfolding new_votes after_all
after_all-IsOfLast es = go es new_votes (inl refl)
  where
    go : (es : List Event) (s : Votes) → IsOfLast s → IsOfLast (after_all es s)
    go [] s v = v
    go (e ∷ es) s v = go es (after e s) (after-IsOfLast e s v)

-- A vote on one tag and then on another, both on their way: the row of the first is no longer
-- pending, and when the first request ends, with a success or not, neither is that of the second,
-- whose request is still on its way.
pub overlapping_votes :
    (a b : ℕ) (x y : EntityTagVoteValue) (success : Bool)
    → a ≢ b
    → let both = after (clicked_vote b y) (after (clicked_vote a x) new_votes) in
      let one_left = after (settled 1 success) both in
      (both.requests ≡ vote_tag b y ∷ vote_tag a x ∷ [])
      × (is_pending both a ≡ false)
      × (one_left.requests ≡ vote_tag b y ∷ [])
      × (is_pending one_left b ≡ false)
unfolding after new_votes begin_vote settle drop_request is_pending
overlapping_votes a b x y true n = ground arith
overlapping_votes a b x y false n = ground arith
