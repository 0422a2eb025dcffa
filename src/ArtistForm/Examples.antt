-- ===== src/ArtistForm/Examples.antt =====
-- A form whose arrays are lists, and the memberships of an artist.
use touhou_cloud_music_thcdb.Common.{◌≡◌, refl, ◌↔◌, none, some, List, [], ◌∷◌, ◌++◌, pos}
use touhou_cloud_music_thcdb.ReleaseTracks.{FormArrays}
use touhou_cloud_music_thcdb.EntityForms.{splice_out, set_at}
use touhou_cloud_music_thcdb.EntityForms.Relations.{FormIsLists}
use touhou_cloud_music_thcdb.ArtistForm.{
  Tenure, years, join_before_leave, Membership, new_membership, open_form, open_ids, add_membership,
  remove_membership_at, handle_select, handle_remove, compute_tenure_error,
}
use touhou_cloud_music_thcdb.ArtistForm.Tenures.{IsChronological, compute_tenure_error_iff}
use touhou_cloud_music_thcdb.ArtistForm.Lists.{stored_first-removed}

abbrev lists : FormArrays
lists = record {
  insert = λ xs x. xs ++ (x ∷ []);
  remove = λ xs i. splice_out i xs;
  set_input = λ xs i x. set_at i x xs;
}

lists-FormIsLists : FormIsLists lists
lists-FormIsLists = record {
  insert-append = λ xs x. refl;
  remove-splice_out = λ xs i. refl;
  set_input-set_at = λ xs i x. refl;
}

abbrev overlapping : List Tenure
overlapping = years (some (pos 2004)) (some (pos 2009)) ∷ years (some (pos 2008)) none ∷ []

overlap_is_reported : compute_tenure_error overlapping ≡ join_before_leave ∷ []
unfolding compute_tenure_error
overlap_is_reported = refl

compute_tenure_error_iff_example :
    (compute_tenure_error overlapping ≡ []) ↔ IsChronological overlapping
compute_tenure_error_iff_example = compute_tenure_error_iff overlapping

abbrev stored : Membership
stored = record { artist_id = 3; roles = 1 ∷ []; tenure = overlapping }

stored_first-removed_example :
    ((remove_membership_at lists 0 (add_membership lists 8 (open_form (stored ∷ [])))).form_items
      ≡ new_membership 8 ∷ [])
    × ((remove_membership_at lists 0 (add_membership lists 8 (open_form (stored ∷ [])))).shown ≡ [])
    × ((handle_remove lists 0 (handle_select lists 8 (open_ids (5 ∷ 6 ∷ [])))).form_ids
        ≡ 6 ∷ 8 ∷ [])
    × ((handle_remove lists 0 (handle_select lists 8 (open_ids (5 ∷ 6 ∷ [])))).shown ≡ [])
stored_first-removed_example = stored_first-removed lists lists-FormIsLists stored [] 5 8 (6 ∷ [])
