-- ===== src/EntityForms/Sync.antt =====
-- What the lists of credits show is what the form has, and founders whose names arrive late.
use touhou_cloud_music_thcdb.Common.{
  ℕ, zero, suc, ◌≡◌, refl, sym, ap, ◌∙◌, Option, none, some, List, [], ◌∷◌, ◌++◌, Text, arith,
  get_elem?, Option-cases, inl, inr,
}
use touhou_cloud_music_thcdb.ReleaseTracks.{FormArrays}
use touhou_cloud_music_thcdb.EntityForms.{
  splice_out, set_at, CreditRow, CreditList, no_credit, update_at, set_row, add_credit_row,
  remove_credit_row_at, set_credit_artist_at, set_credit_role_at,
}
use touhou_cloud_music_thcdb.EntityForms.Relations.{FormIsLists}
use touhou_cloud_music_thcdb.EntityForms.Titles.{
  FounderEntry, FounderList, add_credit, remove_credit_at, set_artist_at, set_role_at,
  remove_founder_at, sync_founders, settle_founders,
}

update_at-none :
    (i : ℕ) (change : CreditRow → CreditRow) (rows : List CreditRow)
    → get_elem? rows i ≡ none
    → update_at i change rows ≡ rows
unfolding update_at
update_at-none i change [] h = refl
update_at-none zero change (row ∷ rows) h = cc
update_at-none (suc i) change (row ∷ rows) h = ap (◌∷◌ row) (update_at-none i change rows h)

update_at-some :
    (i : ℕ) (change : CreditRow → CreditRow) (rows : List CreditRow) (row : CreditRow)
    → get_elem? rows i ≡ some row
    → update_at i change rows ≡ set_at i (change row) rows
unfolding update_at set_at
update_at-some i change [] row h = cc
update_at-some zero change (old ∷ rows) row h = ground arith
update_at-some (suc i) change (old ∷ rows) row h = ap (◌∷◌ old) (update_at-some i change rows row h)

-- A row that is set in the form is the one that is updated in the store.
set_row_sync :
    (form : FormArrays) (laws : FormIsLists form) (i : ℕ) (change : CreditRow → CreditRow)
    (rows meta : List CreditRow)
    → rows ≡ meta
    → set_row form i change rows ≡ update_at i change meta
set_row_sync form laws i change rows meta h = elim (Option-cases (get_elem? rows i)) [
  | inl e ↦ rw (e, set_row) (sym (update_at-none i change rows e) ∙ ap (update_at i change) h)
  | inr (row, e) ↦
      rw (e, set_row)
        (laws.set_input-set_at rows i (change row)
          ∙ sym (update_at-some i change rows row e)
          ∙ ap (update_at i change) h)
]

module _ (form : FormArrays) where
  -- What a user does with the credits of a release or of a song.
  pub data CreditStep : CreditList → CreditList → Type 0 where
    row_added : {s : CreditList} → CreditStep s (add_credit_row form s)
    row_removed : {s : CreditList} (i : ℕ) → CreditStep s (remove_credit_row_at form i s)
    row_artist : {s : CreditList} (i a : ℕ) → CreditStep s (set_credit_artist_at form i a s)
    row_role : {s : CreditList} (i r : ℕ) → CreditStep s (set_credit_role_at form i r s)
    credit_added : {s : CreditList} → CreditStep s (add_credit form s)
    credit_removed : {s : CreditList} (i : ℕ) → CreditStep s (remove_credit_at form i s)
    credit_artist : {s : CreditList} (i a : ℕ) → CreditStep s (set_artist_at form i a s)
    credit_role : {s : CreditList} (i r : ℕ) → CreditStep s (set_role_at form i r s)

  pub data CreditReach (s : CreditList) : CreditList → Type 0 where
    at_start : CreditReach s s
    after : {t u : CreditList} → CreditReach s t → CreditStep t u → CreditReach s u

  module _ (laws : FormIsLists form) where
    insert_sync :
        {A : Type 0} (x : A) (xs ys : List A) → xs ≡ ys → form.insert xs x ≡ ys ++ (x ∷ [])
    insert_sync x xs ys h = laws.insert-append xs x ∙ ap (λ l. l ++ (x ∷ [])) h

    remove_sync :
        {A : Type 0} (i : ℕ) (xs ys : List A) → xs ≡ ys → form.remove xs i ≡ splice_out i ys
    remove_sync i xs ys h = laws.remove-splice_out xs i ∙ ap (splice_out i) h

    pub CreditStep-sync :
        {s t : CreditList} → CreditStep s t → s.form_rows ≡ s.meta → t.form_rows ≡ t.meta
    unfolding add_credit_row remove_credit_row_at set_credit_artist_at set_credit_role_at add_credit
        remove_credit_at set_artist_at set_role_at
    CreditStep-sync (row_added {s}) h = insert_sync no_credit s.form_rows s.meta h
    CreditStep-sync (row_removed {s} i) h = remove_sync i s.form_rows s.meta h
    CreditStep-sync (row_artist {s} i a) h = set_row_sync form laws i _ s.form_rows s.meta h
    CreditStep-sync (row_role {s} i r) h = set_row_sync form laws i _ s.form_rows s.meta h
    CreditStep-sync (credit_added {s}) h = insert_sync no_credit s.form_rows s.meta h
    CreditStep-sync (credit_removed {s} i) h = remove_sync i s.form_rows s.meta h
    CreditStep-sync (credit_artist {s} i a) h = set_row_sync form laws i _ s.form_rows s.meta h
    CreditStep-sync (credit_role {s} i r) h = set_row_sync form laws i _ s.form_rows s.meta h

    -- If the arrays of the form are lists: whatever rows are added, removed and given an artist or
    -- a role, in whatever order, the credits of a release or of a song are the same in the form and
    -- in the store that is shown, if they were so at first.
    pub credits-sync :
        {s t : CreditList} → CreditReach s t → s.form_rows ≡ s.meta → t.form_rows ≡ t.meta
    credits-sync at_start h = h
    credits-sync (after r st) h = CreditStep-sync st (credits-sync r h)

    -- The names of founders arrive after the first of them was removed: the entry of the removed one
    -- is then shown first, while the form has the next one's id there.
    pub late_names :
        (hash : ℕ → Text) (removed_id kept : ℕ) (ids : List ℕ) (artist : FounderEntry)
        (results : List (Option FounderEntry)) (s : FounderList)
        → s.form_ids ≡ removed_id ∷ kept ∷ ids
        → let t =
            settle_founders
              (some artist ∷ results)
              (remove_founder_at form 0 (sync_founders hash (removed_id ∷ kept ∷ ids) s)) in
          (t.form_ids ≡ kept ∷ ids) × (get_elem? t.founders 0 ≡ some artist)
    unfolding settle_founders remove_founder_at sync_founders splice_out
    late_names hash removed_id kept ids artist results s h =
        (laws.remove-splice_out s.form_ids 0 ∙ ap (splice_out 0) h, refl)
