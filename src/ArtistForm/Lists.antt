-- ===== src/ArtistForm/Lists.antt =====
-- What the lists show, and what the form has.
use touhou_cloud_music_thcdb.Common.{
  ℕ, zero, suc, ◌≡◌, refl, ap, ◌∙◌, false, List, [], ◌∷◌, ◌++◌, has, map, Bool-cases, inl, inr,
  if◌then◌else◌,
}
use touhou_cloud_music_thcdb.ReleaseTracks.{FormArrays}
use touhou_cloud_music_thcdb.EntityForms.{splice_out}
use touhou_cloud_music_thcdb.EntityForms.Relations.{FormIsLists}
use touhou_cloud_music_thcdb.ArtistForm.{
  Membership, MembershipList, open_form, push_artist, new_membership, data_filter, add_membership,
  remove_membership_at, open_ids, handle_select, handle_remove,
}

abbrev pub ids : List Membership → List ℕ
ids items = map (λ m. m.artist_id) items

ids-append :
    (items : List Membership) (artist : ℕ)
    → ids (items ++ (new_membership artist ∷ [])) ≡ ids items ++ (artist ∷ [])
ids-append [] artist = refl
ids-append (m ∷ items) artist = ap (◌∷◌ m.artist_id) (ids-append items artist)

ids-splice_out :
    (i : ℕ) (items : List Membership) → ids (splice_out i items) ≡ splice_out i (ids items)
unfolding splice_out
ids-splice_out i [] = refl
ids-splice_out zero (m ∷ items) = refl
ids-splice_out (suc i) (m ∷ items) = ap (◌∷◌ m.artist_id) (ids-splice_out i items)

-- What a user does: the search offers an artist only if the filter lets it through.
pub data Event : Type 0 where
  selected : ℕ → Event
  removed : ℕ → Event

module _ (form : FormArrays) where
  unfoldable pub after : Event → MembershipList → MembershipList
  after (selected artist) s = if data_filter s artist then add_membership form artist s else s
  after (removed index) s = remove_membership_at form index s

  unfoldable pub after_all : List Event → MembershipList → MembershipList
  unfolding after
  after_all [] s = s
  after_all (ev ∷ evs) s = after_all evs (after ev s)

  module _ (laws : FormIsLists form) where
    add-ids :
        (artist : ℕ) (s : MembershipList)
        → ids s.form_items ≡ s.shown
        → has s.shown artist ≡ false
        → ids (add_membership form artist s).form_items ≡ (add_membership form artist s).shown
    unfolding add_membership push_artist
    add-ids artist s h n =
        ap ids (laws.insert-append s.form_items (new_membership artist))
        ∙ ids-append s.form_items artist
        ∙ ap (λ l. l ++ (artist ∷ [])) h
        ∙ rw n refl

    after-ids :
        (ev : Event) (s : MembershipList)
        → ids s.form_items ≡ s.shown
        → ids (after ev s).form_items ≡ (after ev s).shown
    unfolding after data_filter remove_membership_at
    after-ids (selected artist) s h = elim (Bool-cases (has s.shown artist)) [
      | inl e ↦ rw e h
      | inr n ↦ rw n (add-ids artist s h n)
    ]
    after-ids (removed i) s h =
        ap ids (laws.remove-splice_out s.form_items i)
        ∙ ids-splice_out i s.form_items
        ∙ ap (splice_out i) h

    all-ids :
        (evs : List Event) (s : MembershipList)
        → ids s.form_items ≡ s.shown
        → ids (after_all evs s).form_items ≡ (after_all evs s).shown
    unfolding after_all
    all-ids [] s h = h
    all-ids (ev ∷ evs) s h = all-ids evs (after ev s) (after-ids ev s h)

    -- In the form of a new artist.
    pub new_form-ids :
        (evs : List Event) → let s = after_all evs (open_form []) in ids s.form_items ≡ s.shown
    new_form-ids evs = all-ids evs (open_form []) refl

    -- If the arrays of the form are lists, in the form of an artist that has memberships and
    -- aliases: an artist is added as a member and the only member that is shown is removed; the
    -- form has lost the first stored membership and keeps the one that was added, and nothing is
    -- shown. So it is with the aliases.
    pub stored_first-removed :
        (m : Membership) (items : List Membership) (first artist : ℕ) (aliases : List ℕ)
        → let s =
            remove_membership_at form 0 (add_membership form artist (open_form (m ∷ items))) in
          let t = handle_remove form 0 (handle_select form artist (open_ids (first ∷ aliases))) in
          (s.form_items ≡ items ++ (new_membership artist ∷ []))
          × (s.shown ≡ [])
          × (t.form_ids ≡ aliases ++ (artist ∷ []))
          × (t.shown ≡ [])
    unfolding remove_membership_at add_membership push_artist handle_remove handle_select splice_out
    stored_first-removed m items first artist aliases = (
      laws.remove-splice_out _ 0
          ∙ ap (splice_out 0) (laws.insert-append (m ∷ items) (new_membership artist)),
      refl,
      laws.remove-splice_out _ 0 ∙ ap (splice_out 0) (laws.insert-append (first ∷ aliases) artist),
      refl,
    )
