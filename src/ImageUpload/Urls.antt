-- ===== src/ImageUpload/Urls.antt =====
-- The object URLs that are alive.
use touhou_cloud_music_thcdb.Common.{
  ℕ, ◌≡◌, refl, Bool, Option, none, some, Text, List, [], ◌∷◌, arith, if◌then◌else◌,
}
use touhou_cloud_music_thcdb.ImageUpload.{
  Url, object, Store, Thrown, remove, revoke_draft_preview_url, create, set_is_open, set_draft,
  on_open, on_draft_save, begin_submit, settle_submit, on_cleanup,
}

pub data Event {ℓ} (File : Type ℓ) : Type ℓ where
  opened : Event File
  set_open : Bool → Event File
  saved : File → Event File
  submitted : Event File
  settled : Option Thrown → Event File

module _ {ℓ} {File : Type ℓ} where
  unfoldable pub after : Event File → Store File → Store File
  after opened s = on_open s
  after (set_open next) s = set_is_open next s
  after (saved file) s = on_draft_save file s
  after submitted s = (begin_submit s).0
  after (settled r) s = settle_submit r s

  unfoldable pub after_all : List (Event File) → Store File → Store File
  unfolding after
  after_all [] s = s
  after_all (ev ∷ evs) s = after_all evs (after ev s)

  -- The object URLs that the store has made and still shows.
  abbrev pub shown : Store File → List ℕ
  shown s = if s.should_revoke then of_url s.draft_preview_url else []
    where
      of_url : Option Url → List ℕ
      of_url (some (object i)) = i ∷ []
      of_url u = []

  after-shown :
      (ev : Event File) (s : Store File) → s.live ≡ shown s → (after ev s).live ≡ shown (after ev s)
  unfolding after on_open set_is_open on_draft_save set_draft revoke_draft_preview_url begin_submit
      settle_submit remove
  after-shown opened s h = ground (arith, h)
  after-shown (set_open next) s h = h
  after-shown (saved file) s h = ground (arith, h)
  after-shown submitted s h = ground (arith, h)
  after-shown (settled r) s h = ground (arith, h)

  all-shown :
      (evs : List (Event File)) (s : Store File)
      → s.live ≡ shown s
      → (after_all evs s).live ≡ shown (after_all evs s)
  unfolding after_all
  all-shown [] s h = h
  all-shown (ev ∷ evs) s h = all-shown evs (after ev s) (after-shown ev s h)

  create-shown :
      (file : Option File) (preview : Option Text)
      → (create file preview).live ≡ shown (create file preview)
  unfolding create
  create-shown none preview = refl
  create-shown (some file) preview = refl

  cleanup-shown : (s : Store File) → s.live ≡ shown s → (on_cleanup s).live ≡ []
  unfolding on_cleanup revoke_draft_preview_url remove
  cleanup-shown s h = ground (arith, h)

  -- Whatever happens to the store after it is created, the object URLs that are not revoked are the
  -- one it shows, if that is one, and no other; and when the component is unmounted none is left.
  pub live-shown :
      (file : Option File) (preview : Option Text) (evs : List (Event File))
      → let s = after_all evs (create file preview) in
        (s.live ≡ shown s) × ((on_cleanup s).live ≡ [])
  live-shown file preview evs =
      let all = all-shown evs (create file preview) (create-shown file preview) in
      (all, cleanup-shown (after_all evs (create file preview)) all)
