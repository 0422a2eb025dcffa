-- ===== src/EntityForms/Examples.antt =====
-- A form whose arrays are lists, and the relations of the tag 9.
use touhou_cloud_music_thcdb.Common.{
  ◌≡◌, refl, [], ◌∷◌, ◌++◌, none, some, true, false, arith, List, ℕ,
}
use touhou_cloud_music_thcdb.ReleaseTracks.{FormArrays, Track}
use touhou_cloud_music_thcdb.EntityTags.{sort, insert, sign_of_difference}
use touhou_cloud_music_thcdb.EntityForms.{
  RelationList, splice_out, set_at, add_relation, set_tag_at, is_relation_exists, exists_from,
}
use touhou_cloud_music_thcdb.EntityForms.CreditTracks.{
  within_from, sorted_track_indices, compare_tracks,
}
use touhou_cloud_music_thcdb.EntityForms.CreditBoxes.{update_input, accepts_on, first_track-refused}
use touhou_cloud_music_thcdb.EntityForms.Titles.{
  SharedList, set_title_language_at, set_name_language_at, set_catalog_label_at,
}
use touhou_cloud_music_thcdb.EntityForms.Shared.{IsMixed, three, shared_choice}
use touhou_cloud_music_thcdb.EntityForms.Relations.{
  FormIsLists, IsRelated, here, then_step, added, chosen, Reach-IsRelated,
}

abbrev lists : FormArrays
lists = record {
  insert = λ xs x. xs ++ (x ∷ []);
  remove = λ xs i. splice_out i xs;
  set_input = λ xs i x. set_at i x xs;
}

lists-FormIsLists : FormIsLists lists
lists-FormIsLists = record {
  insert-append = λ xs x. refl;
  remove-splice_out = λ xs i. refl;
  set_input-set_at = λ xs i x. refl;
}

abbrev unrelated : RelationList
unrelated = record { form_ids = []; refs = [] }

abbrev chosen_twice : RelationList
chosen_twice =
    set_tag_at lists (some 9) 1 4
      (set_tag_at lists (some 9) 0 4 (add_relation lists (add_relation lists unrelated)))

second_choice_is_ignored : chosen_twice.refs ≡ some 4 ∷ none ∷ []
unfolding set_tag_at add_relation is_relation_exists exists_from set_at
second_choice_is_ignored = refl

Reach-IsRelated_example : IsRelated (some 9) chosen_twice
Reach-IsRelated_example =
    Reach-IsRelated lists (some 9) lists-FormIsLists
      (then_step (then_step (then_step (then_step here added) added) (chosen 0 4)) (chosen 1 4))
      (refl, tt, refl)

abbrev track_on : ℕ → Track
track_on disc = record { disc_index = disc; song_id = none; artists = [] }

abbrev three_tracks : List Track
three_tracks = track_on 1 ∷ track_on 0 ∷ track_on 1 ∷ []

three_tracks_in_order : sorted_track_indices three_tracks ≡ 1 ∷ 0 ∷ 2 ∷ []
unfolding sorted_track_indices compare_tracks within_from sort insert sign_of_difference
three_tracks_in_order = refl

first_track-refused_example :
    (accepts_on (update_input 0 true (some (2 ∷ []))) ≡ false)
    × (accepts_on (update_input 0 false (some (2 ∷ []))) ≡ true)
unfolding accepts_on
first_track-refused_example = first_track-refused 0 (some (2 ∷ [])) (omega arith) refl

abbrev two_rows : SharedList
two_rows = record { form_ids = none ∷ none ∷ []; refs = none ∷ none ∷ []; id_of = λ object. object }

shared_choice_example :
    IsMixed 4 7 [] [] two_rows (three (λ i o. set_title_language_at lists i (some o)) 4 7 two_rows)
    × IsMixed 4 7 [] [] two_rows (three (λ i o. set_name_language_at lists i (some o)) 4 7 two_rows)
    × IsMixed 4 7 [] [] two_rows (three (set_catalog_label_at lists) 4 7 two_rows)
shared_choice_example =
    shared_choice lists lists-FormIsLists 4 7 [] [] two_rows
      (record { form_rows = refl; shown_rows = refl })
