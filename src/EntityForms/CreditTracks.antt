-- ===== src/EntityForms/CreditTracks.antt =====
-- The tracks that a credit names, by their indices: `ReleaseCreditTracks` and the order of the
-- tracks in web/frontend/src/view/release/edit/comp/ReleaseCreditsField.tsx.
use touhou_cloud_music_thcdb.Common.{
  ℕ, zero, suc, ◌+◌, ◌<◌, ◌≤◌, ◌≡◌, ◌⊎◌, sym, ap, ◌∙◌, Bool, true, false, Option, none, some, List,
  [], ◌∷◌, ◌++◌, ◌==◌, Text, codes, length, get_elem?, or_else, if◌then◌else◌, pos, arith,
}
use mathlib.Core.List.{Perm}
use touhou_cloud_music_thcdb.ReleaseTracks.{Track}
use touhou_cloud_music_thcdb.EntityTags.{
  Sign, below, same, above, is_above, sign_of_difference, sort,
}
use touhou_cloud_music_thcdb.EntityTags.Sorting.{IsSorted, sort-IsSorted, sort-Perm}

-- `counters`: how many tracks of a disc came before; 0 for a disc without an entry.
abbrev pub Counters : Type 0
Counters = ℕ → ℕ

abbrev pub set_counter : Counters → ℕ → ℕ → Counters
set_counter counters disc count = λ d. if d == disc then count else counters d

unfoldable pub within_from : Counters → List Track → List ℕ
within_from counters [] = []
within_from counters (track ∷ tracks) =
    let curr_idx = counters track.disc_index in
    (curr_idx + 1) ∷ within_from (set_counter counters track.disc_index (curr_idx + 1)) tracks

-- `within`
abbrev pub within : List Track → List ℕ
within tracks = within_from (λ d. 0) tracks

-- `tracks[i]?.disc_index ?? 0`
abbrev pub disc_at : List Track → ℕ → ℕ
disc_at tracks i = elim (get_elem? tracks i) [ none ↦ 0 | some track ↦ track.disc_index ]

unfoldable pub compare_tracks : List Track → ℕ → ℕ → Sign
compare_tracks tracks a b =
    elim (sign_of_difference (pos (disc_at tracks a)) (pos (disc_at tracks b))) [
      | below ↦ below
      | above ↦ above
      | same ↦
          sign_of_difference (pos (or_else (get_elem? (within tracks) a) 0))
            (pos (or_else (get_elem? (within tracks) b) 0))
    ]

abbrev pub indices_up : ℕ → List Track → List ℕ
indices_up i [] = []
indices_up i (track ∷ tracks) = i ∷ indices_up (suc i) tracks

unfoldable pub sorted_track_indices : List Track → List ℕ
sorted_track_indices tracks = sort (compare_tracks tracks) (indices_up 0 tracks)

-- `tracks[i]?.disc_index === discIndex`
abbrev pub is_on_disc : Option Track → ℕ → Bool
is_on_disc none disc = false
is_on_disc (some track) disc = track.disc_index == disc

-- `withinDisc` after the turns of the loop for the indices below n.
unfoldable pub within_disc : List Track → ℕ → ℕ → ℕ
within_disc tracks disc zero = 0
within_disc tracks disc (suc n) =
    let before = within_disc tracks disc n in
    if is_on_disc (get_elem? tracks n) disc then before + 1 else before

module _ (show : ℕ → Text) where
  unfoldable pub render_track_label : List Track → ℕ → Text
  render_track_label tracks t_index =
      codes "Disc "
      ++ show (disc_at tracks t_index + 1)
      ++ codes " Track "
      ++ show (within_disc tracks (disc_at tracks t_index) (suc t_index))

-- The first track counts if it is on the disc, and the loop does the rest on the others.
within_disc-cons :
    (track : Track) (tracks : List Track) (disc n : ℕ)
    → within_disc (track ∷ tracks) disc (suc n)
      ≡ (if track.disc_index == disc then 1 else 0) + within_disc tracks disc n
unfolding within_disc
within_disc-cons track tracks disc zero = ground arith
within_disc-cons track tracks disc (suc n) = ground (arith, within_disc-cons track tracks disc n)

first_counts :
    (track : Track) (tracks : List Track) → within_disc (track ∷ tracks) track.disc_index 1 ≡ 1
unfolding within_disc
first_counts track tracks = ground arith

counted :
    (counters : Counters) (disc d w : ℕ)
    → set_counter counters disc (counters disc + 1) d + w
      ≡ counters d + ((if disc == d then 1 else 0) + w)
counted counters disc d w = grind arith

within_from-count :
    (counters : Counters) (tracks : List Track) (t : ℕ)
    → t < length tracks
    → get_elem? (within_from counters tracks) t
      ≡ some (counters (disc_at tracks t) + within_disc tracks (disc_at tracks t) (suc t))
unfolding within_from
within_from-count counters [] t h = absurd (omega (arith, h))
within_from-count counters (track ∷ tracks) zero h =
    ap some (sym (ap (λ n. counters track.disc_index + n) (first_counts track tracks)))
within_from-count counters (track ∷ tracks) (suc t) h =
    let disc = disc_at tracks t in
    within_from-count (set_counter counters track.disc_index (counters track.disc_index + 1)) tracks
      t (omega (arith, h))
    ∙ ap some (
        counted counters track.disc_index disc (within_disc tracks disc (suc t))
        ∙ ap (λ n. counters disc + n) (sym (within_disc-cons track tracks disc (suc t))))

-- The number by which a track is sorted within its disc is the one that its label shows.
pub within-label :
    (tracks : List Track) (t : ℕ)
    → t < length tracks
    → get_elem? (within tracks) t ≡ some (within_disc tracks (disc_at tracks t) (suc t))
within-label tracks t h = within_from-count (λ d. 0) tracks t h ∙ ap some (omega arith)

-- The number of a track within its disc, as the comparison reads it.
abbrev pub number_of : List Track → ℕ → ℕ
number_of tracks i = or_else (get_elem? (within tracks) i) 0

-- The disc comes first, or it is the same and the number is not higher.
abbrev pub Precedes : List Track → ℕ → ℕ → Type 0
Precedes tracks a b =
    (disc_at tracks a < disc_at tracks b)
    ⊎ ((disc_at tracks a ≡ disc_at tracks b) × (number_of tracks a ≤ number_of tracks b))

abbrev pub IsOrdered : List Track → List ℕ → Type 0
IsOrdered tracks [] = Unit
IsOrdered tracks (a ∷ []) = Unit
IsOrdered tracks (a ∷ b ∷ is) = Precedes tracks a b × IsOrdered tracks (b ∷ is)

compare_tracks-Precedes :
    (tracks : List Track) (a b : ℕ)
    → is_above (compare_tracks tracks a b) ≡ false
    → Precedes tracks a b
unfolding compare_tracks sign_of_difference
compare_tracks-Precedes tracks a b h = ground arith

compare_tracks-flip :
    (tracks : List Track) (a b : ℕ)
    → is_above (compare_tracks tracks a b) ≡ true
    → is_above (compare_tracks tracks b a) ≡ false
unfolding compare_tracks sign_of_difference
compare_tracks-flip tracks a b h = ground arith

IsSorted-IsOrdered :
    (tracks : List Track) (is : List ℕ) → IsSorted (compare_tracks tracks) is → IsOrdered tracks is
IsSorted-IsOrdered tracks [] s = tt
IsSorted-IsOrdered tracks (a ∷ []) s = tt
IsSorted-IsOrdered tracks (a ∷ b ∷ is) (n, s) =
    (compare_tracks-Precedes tracks a b n, IsSorted-IsOrdered tracks (b ∷ is) s)

-- The boxes are those of all tracks, ordered by the disc and, within a disc, by the number.
pub sorted_track_indices-IsOrdered :
    (tracks : List Track)
    → IsOrdered tracks (sorted_track_indices tracks)
      × Perm (sorted_track_indices tracks) (indices_up 0 tracks)
unfolding sorted_track_indices
sorted_track_indices-IsOrdered tracks = (
  IsSorted-IsOrdered tracks (sort (compare_tracks tracks) (indices_up 0 tracks))
      (sort-IsSorted (compare_tracks tracks) (compare_tracks-flip tracks) (indices_up 0 tracks)),
  sort-Perm (compare_tracks tracks) (indices_up 0 tracks),
)
