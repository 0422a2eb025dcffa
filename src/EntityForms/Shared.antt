-- ===== src/EntityForms/Shared.antt =====
-- Objects that two rows share.
use touhou_cloud_music_thcdb.Common.{
  ℕ, ◌≡◌, refl, ap, ◌∙◌, Option, none, some, List, ◌∷◌, get_elem?, arith,
}
use touhou_cloud_music_thcdb.ReleaseTracks.{FormArrays}
use touhou_cloud_music_thcdb.EntityForms.{set_at}
use touhou_cloud_music_thcdb.EntityForms.Relations.{FormIsLists}
use touhou_cloud_music_thcdb.EntityForms.Titles.{
  SharedList, set_object, set_title_language_at, set_name_language_at, set_catalog_label_at,
}

-- Two rows without a choice.
pub record IsUnset (ids refs : List (Option ℕ)) (s : SharedList) : Type 0 where
  pub form_rows : s.form_ids ≡ none ∷ none ∷ ids
  pub shown_rows : s.refs ≡ none ∷ none ∷ refs

-- The second row shows the id of the object `b`, and the form has that of the object `a` there.
pub record IsMixed (a b : ℕ) (ids refs : List (Option ℕ)) (s t : SharedList) : Type 0 where
  pub in_form : t.form_ids ≡ some (s.id_of b) ∷ some (s.id_of a) ∷ ids
  pub in_store : t.refs ≡ some a ∷ some a ∷ refs
  pub shown : t.id_of a ≡ s.id_of b

-- What a choice does: the form gets the id of the object, and the store has merged it.
abbrev IsChoice : (ℕ → ℕ → SharedList → SharedList) → Type 0
IsChoice choose =
    (i o : ℕ) (s : SharedList)
    → ((choose i o s).form_ids ≡ set_at i (some (s.id_of o)) s.form_ids)
      × ((choose i o s).refs ≡ (set_object i o s).refs)
      × ((choose i o s).id_of ≡ (set_object i o s).id_of)

-- One object for the second and the first row, and another for the first.
abbrev pub three : (ℕ → ℕ → SharedList → SharedList) → ℕ → ℕ → SharedList → SharedList
three choose a b s = choose 0 b (choose 0 a (choose 1 a s))

set_object-form_ids : (i o : ℕ) (s : SharedList) → (set_object i o s).form_ids ≡ s.form_ids
unfolding set_object
set_object-form_ids i o s = ground arith

object_id : (i o : ℕ) (s : SharedList) → (set_object i o s).id_of o ≡ s.id_of o
unfolding set_object
object_id i o s = ground arith

into_empty :
    (i o : ℕ) (s : SharedList)
    → get_elem? s.refs i ≡ some none
    → ((set_object i o s).refs ≡ set_at i (some o) s.refs) × ((set_object i o s).id_of ≡ s.id_of)
unfolding set_object
into_empty i o s h = rw (h, set_object) (refl, refl)

into_held :
    (i o held : ℕ) (s : SharedList)
    → get_elem? s.refs i ≡ some (some held)
    → ((set_object i o s).refs ≡ s.refs) × ((set_object i o s).id_of held ≡ s.id_of o)
unfolding set_object
into_held i o held s h = rw (h, set_object) (refl, ground arith)

three-IsMixed :
    (choose : ℕ → ℕ → SharedList → SharedList)
    → IsChoice choose
    → (a b : ℕ) (ids refs : List (Option ℕ)) (s : SharedList) → IsUnset ids refs s
    → IsMixed a b ids refs s (three choose a b s)
unfolding set_at
three-IsMixed choose choice a b ids refs s u =
    let one = choose 1 a s in
    let two = choose 0 a one in
    let (f1, r1, d1) = choice 1 a s in
    let (f2, r2, d2) = choice 0 a one in
    let (f3, r3, d3) = choice 0 b two in
    let (e1, g1) = into_empty 1 a s (ap (λ l. get_elem? l 1) u.shown_rows) in
    let refs1 : one.refs ≡ none ∷ some a ∷ refs = r1 ∙ e1 ∙ ap (set_at 1 (some a)) u.shown_rows in
    let same1 = d1 ∙ g1 in
    let (e2, g2) = into_empty 0 a one (ap (λ l. get_elem? l 0) refs1) in
    let refs2 : two.refs ≡ some a ∷ some a ∷ refs = r2 ∙ e2 ∙ ap (set_at 0 (some a)) refs1 in
    let same2 = d2 ∙ g2 ∙ same1 in
    let (e3, g3) = into_held 0 b a two (ap (λ l. get_elem? l 0) refs2) in
    let ids1 : one.form_ids ≡ none ∷ some (s.id_of a) ∷ ids =
      f1 ∙ ap (set_at 1 (some (s.id_of a))) u.form_rows in
    let ids2 : two.form_ids ≡ some (one.id_of a) ∷ some (s.id_of a) ∷ ids =
      f2 ∙ ap (set_at 0 (some (one.id_of a))) ids1 in
    record {
      in_form =
          f3
          ∙ ap (set_at 0 (some (two.id_of b))) ids2
          ∙ ap (λ d. some (d b) ∷ some (s.id_of a) ∷ ids) same2;
      in_store = r3 ∙ e3 ∙ refs2;
      shown = ap (λ d. d a) d3 ∙ g3 ∙ ap (λ d. d b) same2;
    }

module _ (form : FormArrays) (laws : FormIsLists form) where
  title-IsChoice : IsChoice (λ i o. set_title_language_at form i (some o))
  unfolding set_title_language_at
  title-IsChoice i o s = (
    laws.set_input-set_at s.form_ids i (some ((set_object i o s).id_of o))
        ∙ ap (λ d. set_at i (some d) s.form_ids) (object_id i o s),
    refl,
    refl,
  )

  name-IsChoice : IsChoice (λ i o. set_name_language_at form i (some o))
  unfolding set_name_language_at set_title_language_at
  name-IsChoice i o s = title-IsChoice i o s

  label-IsChoice : IsChoice (set_catalog_label_at form)
  unfolding set_catalog_label_at set_object
  label-IsChoice i o s = (
    set_object-form_ids i o (record s { form_ids = form.set_input s.form_ids i (some (s.id_of o)) })
        ∙ laws.set_input-set_at s.form_ids i (some (s.id_of o)),
    ground arith,
    ground arith,
  )

  -- If the arrays of the form are lists, and the first two rows of the titles of a song, of the
  -- names of a label or of the catalog numbers of a release have no language or label: one object
  -- is chosen in the second row and in the first, and then another in the first. The second row
  -- then shows the id of the other one too, while the form still has the first object's there.
  pub shared_choice :
      (a b : ℕ) (ids refs : List (Option ℕ)) (s : SharedList)
      → IsUnset ids refs s
      → IsMixed a b ids refs s (three (λ i o. set_title_language_at form i (some o)) a b s)
        × IsMixed a b ids refs s (three (λ i o. set_name_language_at form i (some o)) a b s)
        × IsMixed a b ids refs s (three (set_catalog_label_at form) a b s)
  shared_choice a b ids refs s u = (
    three-IsMixed _ title-IsChoice a b ids refs s u,
    three-IsMixed _ name-IsChoice a b ids refs s u,
    three-IsMixed _ label-IsChoice a b ids refs s u,
  )
