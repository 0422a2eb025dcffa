-- ===== src/EntityForms/Relations.antt =====
-- Relations of a tag or a song: what is related, and what the form and the store hold.
use touhou_cloud_music_thcdb.Common.{
  ℕ, ◌≡◌, refl, ap, ◌∙◌, inl, inr, false, Option, none, some, List, [], ◌∷◌, ◌++◌, arith,
  Bool-cases,
}
use touhou_cloud_music_thcdb.ReleaseTracks.{FormArrays}
use touhou_cloud_music_thcdb.EntityForms.{
  splice_out, set_at, RelationList, exists_from, is_own, is_relation_exists, add_relation,
  remove_relation_at, set_tag_at, is_song_relation_exists, add_song_relation,
  remove_song_relation_at, set_song_at,
}
use touhou_cloud_music_thcdb.EntityForms.Once.{
  IsOnce, IsForeign, has_ref-append, has_ref-splice_out, has_ref-set_at, append-IsOnce,
  splice_out-IsOnce, set_at-IsOnce,
}

-- The arrays of the form are lists.
pub record FormIsLists (form : FormArrays) : Type 1 where
  pub insert-append : {A : Type 0} (xs : List A) (x : A) → form.insert xs x ≡ xs ++ (x ∷ [])
  pub remove-splice_out : {A : Type 0} (xs : List A) (i : ℕ) → form.remove xs i ≡ splice_out i xs
  pub set_input-set_at :
      {A : Type 0} (xs : List A) (i : ℕ) (x : A) → form.set_input xs i x ≡ set_at i x xs

is_relation_exists-parts :
    (own : Option ℕ) (c i : ℕ) (refs : List (Option ℕ))
    → is_relation_exists own c i refs ≡ false
    → (is_own own c ≡ false) × (exists_from 0 i c refs ≡ false)
unfolding is_relation_exists
is_relation_exists-parts own c i refs h = ground arith

-- The form and the store hold the same, nothing is related twice, and not even the entity itself.
abbrev pub IsRelated : Option ℕ → RelationList → Type 0
IsRelated own s = (s.form_ids ≡ s.refs) × IsOnce s.refs × IsForeign own s.refs

append-IsForeign :
    (own : Option ℕ) (refs : List (Option ℕ))
    → IsForeign own refs
    → IsForeign own (refs ++ (none ∷ []))
append-IsForeign none refs h = tt
append-IsForeign (some o) refs h = has_ref-append o refs ∙ h

splice_out-IsForeign :
    (own : Option ℕ) (i : ℕ) (refs : List (Option ℕ))
    → IsForeign own refs
    → IsForeign own (splice_out i refs)
splice_out-IsForeign none i refs h = tt
splice_out-IsForeign (some o) i refs h = has_ref-splice_out o i refs h

set_at-IsForeign :
    (own : Option ℕ) (i c : ℕ) (refs : List (Option ℕ))
    → is_own own c ≡ false
    → IsForeign own refs
    → IsForeign own (set_at i (some c) refs)
set_at-IsForeign none i c refs n h = tt
set_at-IsForeign (some o) i c refs n h = has_ref-set_at o i c refs h n

module _ (form : FormArrays) (own : Option ℕ) where
  -- What a user does with the relations of a tag or of a song.
  pub data Step : RelationList → RelationList → Type 0 where
    added : {s : RelationList} → Step s (add_relation form s)
    removed : {s : RelationList} (i : ℕ) → Step s (remove_relation_at form i s)
    chosen : {s : RelationList} (i tag : ℕ) → Step s (set_tag_at form own i tag s)
    added_song : {s : RelationList} → Step s (add_song_relation form s)
    removed_song : {s : RelationList} (i : ℕ) → Step s (remove_song_relation_at form i s)
    chosen_song : {s : RelationList} (i song : ℕ) → Step s (set_song_at form own i song s)

  pub data Reach : RelationList → RelationList → Type 0 where
    here : {s : RelationList} → Reach s s
    then_step : {s t u : RelationList} → Reach s t → Step t u → Reach s u

  module _ (lists : FormIsLists form) where
    add-IsRelated : (s : RelationList) → IsRelated own s → IsRelated own (add_relation form s)
    unfolding add_relation
    add-IsRelated s (e, o, f) = (
      lists.insert-append s.form_ids none ∙ ap (λ l. l ++ (none ∷ [])) e,
      append-IsOnce s.refs o,
      append-IsForeign own s.refs f,
    )

    remove-IsRelated :
        (i : ℕ) (s : RelationList) → IsRelated own s → IsRelated own (remove_relation_at form i s)
    unfolding remove_relation_at
    remove-IsRelated i s (e, o, f) = (
      lists.remove-splice_out s.form_ids i ∙ ap (splice_out i) e,
      splice_out-IsOnce i s.refs o,
      splice_out-IsForeign own i s.refs f,
    )

    set-IsRelated :
        (i c : ℕ) (s : RelationList) → IsRelated own s → IsRelated own (set_tag_at form own i c s)
    unfolding set_tag_at
    set-IsRelated i c s (e, o, f) = elim (Bool-cases (is_relation_exists own c i s.refs)) [
      | inl b ↦ rw b (e, o, f)
      | inr b ↦
          let (foreign, once) = is_relation_exists-parts own c i s.refs b in
          rw b (
            lists.set_input-set_at s.form_ids i (some c) ∙ ap (set_at i (some c)) e,
            set_at-IsOnce 0 i i c s.refs (omega arith) once o,
            set_at-IsForeign own i c s.refs foreign f,
          )
    ]

    same_song :
        (i c : ℕ) (s : RelationList) → set_song_at form own i c s ≡ set_tag_at form own i c s
    unfolding set_song_at set_tag_at is_song_relation_exists is_relation_exists
    same_song i c s = refl

    Step-IsRelated : {s t : RelationList} → Step s t → IsRelated own s → IsRelated own t
    unfolding add_song_relation remove_song_relation_at add_relation remove_relation_at
    Step-IsRelated {s} added v = add-IsRelated s v
    Step-IsRelated {s} (removed i) v = remove-IsRelated i s v
    Step-IsRelated {s} (chosen i tag) v = set-IsRelated i tag s v
    Step-IsRelated {s} added_song v = add-IsRelated s v
    Step-IsRelated {s} (removed_song i) v = remove-IsRelated i s v
    Step-IsRelated {s} (chosen_song i song) v = rw (same_song i song s) (set-IsRelated i song s v)

    -- If the arrays of the form are lists: whatever rows are added, removed and chosen, in whatever
    -- order, the relations of a tag or a song are the same in the form and in the store that is
    -- shown, none is there twice and none is the entity itself, if that was so at first.
    pub Reach-IsRelated : {s t : RelationList} → Reach s t → IsRelated own s → IsRelated own t
    Reach-IsRelated here v = v
    Reach-IsRelated (then_step r e) v = Step-IsRelated e (Reach-IsRelated r v)
