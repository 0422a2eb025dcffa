-- ===== src/ReleaseTracks/Selection.antt =====
-- The selected disc and the discs of the tracks.
use native.Mathlib.Nat.{mod-lt}
use touhou_cloud_music_thcdb.Common.{
  ℕ, suc, ◌+◌, ◌-◌, ◌%◌, ◌<◌, ◌≡◌, sym, ap, ◌∙◌, ◌⊎◌, inl, inr, false, List, [], ◌∷◌, ◌++◌, Text,
  some, length, get_elem?, length-append, In, In-append_cases, ◌==◌, max, text_eq, arith,
  Bool-cases,
}
use touhou_cloud_music_thcdb.ReleaseTracks.{
  FormArrays, Track, Tracks, unnamed, new_track, on_add_track, on_prev_disc, on_next_disc,
  on_add_disc, on_confirm_rename, on_remove_track, current_disc_name,
}

-- What is relied on of the form: an insertion goes to the end, a removal adds nothing, setting an item
-- that exists keeps their number and is read back, and the first item is removed like that of a list.
pub record FormLaws (form : FormArrays) : Type 1 where
  pub insert-append : {A : Type 0} (xs : List A) (x : A) → form.insert xs x ≡ xs ++ (x ∷ [])
  pub remove-In : {A : Type 0} (xs : List A) (i : ℕ) (x : A) → In x (form.remove xs i) → In x xs
  pub set_input-length :
      {A : Type 0} (xs : List A) (i : ℕ) (x : A)
      → i < length xs
      → length (form.set_input xs i x) ≡ length xs
  pub remove-head : {A : Type 0} (x : A) (xs : List A) → form.remove (x ∷ xs) 0 ≡ xs
  pub set_input-get :
      {A : Type 0} (xs : List A) (i : ℕ) (x y : A)
      → get_elem? xs i ≡ some x
      → get_elem? (form.set_input xs i y) i ≡ some y

mod-max : (n c : ℕ) → (c == 0) ≡ false → n % c < max 1 c
mod-max n c e = let positive : 0 < c = ground arith in omega (arith, mod-lt n positive)

max-some : (i c : ℕ) → (c == 0) ≡ false → i < max 1 c → i < c
max-some i c e h = ground arith

-- The selected disc exists, or it is the first and there is none; every track is on a disc.
abbrev pub IsValid : Tracks → Type 0
IsValid s =
    (s.selected_disc < max 1 (length s.discs))
    × ((t : Track) → In t s.tracks → t.disc_index < length s.discs)

module _ (form : FormArrays) (show : ℕ → Text) where
  -- What a user does; a disc is given a name only where it exists.
  pub data Step : Tracks → Tracks → Type 0 where
    add_track : {s : Tracks} → Step s (on_add_track form show s)
    prev_disc : {s : Tracks} → Step s (on_prev_disc form show s)
    next_disc : {s : Tracks} → Step s (on_next_disc form show s)
    add_disc : {s : Tracks} → Step s (on_add_disc form show s)
    confirm_rename :
        {s : Tracks} (next : Text)
        → s.selected_disc < length s.discs
        → Step s (on_confirm_rename form show next s)
    remove_track : {s : Tracks} (i : ℕ) → Step s (on_remove_track form show i s)

  pub data Reach : Tracks → Tracks → Type 0 where
    here : {s : Tracks} → Reach s s
    then_step : {s t u : Tracks} → Reach s t → Step t u → Reach s u

  module _ (laws : FormLaws form) where
    insert-length : {A : Type 0} (xs : List A) (x : A) → length (form.insert xs x) ≡ suc (length xs)
    insert-length xs x =
        ap length (laws.insert-append xs x) ∙ length-append xs (x ∷ []) ∙ omega arith

    insert-In : {A : Type 0} (xs : List A) (x y : A) → In y (form.insert xs x) → In y xs ⊎ (x ≡ y)
    insert-In xs x y = rw (laws.insert-append xs x) (λ h. elim (In-append_cases y xs (x ∷ []) h) [
      | inl k ↦ inl k
      | inr (inl e) ↦ inr e
      | inr (inr k) ↦ absurd k
    ])

    add_disc-IsValid : (s : Tracks) → IsValid s → IsValid (on_add_disc form show s)
    unfolding on_add_disc
    add_disc-IsValid s (sel, on) =
        let more = insert-length s.discs unnamed in
        (omega (arith, more), λ t k. omega (arith, more, on t k))

    prev_disc-IsValid : (s : Tracks) → IsValid s → IsValid (on_prev_disc form show s)
    unfolding on_prev_disc
    prev_disc-IsValid s (sel, on) = elim (Bool-cases (length s.discs == 0)) [
      | inl e ↦ rw e (sel, on)
      | inr e ↦ rw e (mod-max (s.selected_disc + length s.discs - 1) (length s.discs) e, on)
    ]

    next_disc-IsValid : (s : Tracks) → IsValid s → IsValid (on_next_disc form show s)
    unfolding on_next_disc
    next_disc-IsValid s (sel, on) = elim (Bool-cases (length s.discs == 0)) [
      | inl e ↦ rw e (sel, on)
      | inr e ↦ rw e (mod-max (s.selected_disc + 1) (length s.discs) e, on)
    ]

    insert_track-IsValid :
        (s : Tracks)
        → s.selected_disc < length s.discs
        → ((t : Track) → In t s.tracks → t.disc_index < length s.discs)
        → IsValid (record s { tracks = form.insert s.tracks (new_track s.selected_disc) })
    insert_track-IsValid s h on = (
      omega (arith, h),
      λ t k. elim (insert-In s.tracks (new_track s.selected_disc) t k) [
        | inl m ↦ on t m
        | inr e ↦ rw (sym e) h
      ],
    )

    add_track-IsValid : (s : Tracks) → IsValid s → IsValid (on_add_track form show s)
    unfolding on_add_track
    add_track-IsValid s (sel, on) = elim (Bool-cases (length s.discs == 0)) [
      | inl e ↦
          let more = insert-length s.discs unnamed in
          let first : Tracks = record s {
            discs = form.insert s.discs unnamed;
            selected_disc = 0;
          } in
          rw e
            (insert_track-IsValid first (omega (arith, more)) (λ t k. omega (arith, more, on t k)))
      | inr e ↦ rw e (insert_track-IsValid s (max-some s.selected_disc (length s.discs) e sel) on)
    ]

    rename-IsValid :
        (next : Text) (s : Tracks)
        → s.selected_disc < length s.discs
        → IsValid s
        → IsValid (on_confirm_rename form show next s)
    unfolding on_confirm_rename
    rename-IsValid next s h (sel, on) =
        elim (Bool-cases (text_eq (current_disc_name form show s) next)) [
          | inl e ↦ rw e (sel, on)
          | inr e ↦
              rw (e, laws.set_input-length s.discs s.selected_disc (record { name = some next }) h)
                (sel, on)
        ]

    Step-IsValid : {s t : Tracks} → Step s t → IsValid s → IsValid t
    unfolding on_remove_track
    Step-IsValid {s} add_track v = add_track-IsValid s v
    Step-IsValid {s} prev_disc v = prev_disc-IsValid s v
    Step-IsValid {s} next_disc v = next_disc-IsValid s v
    Step-IsValid {s} add_disc v = add_disc-IsValid s v
    Step-IsValid {s} (confirm_rename next h) v = rename-IsValid next s h v
    Step-IsValid {s} (remove_track i) (sel, on) = (sel, λ t k. on t (laws.remove-In s.tracks i t k))

    -- If an insertion into the form goes to the end, a removal adds nothing and setting an item
    -- keeps their number: whatever is done to the discs and tracks, a disc being named only where
    -- it exists, the selected disc exists, or it is the first and there is none, and every track is
    -- on a disc, if that was so at first.
    pub Reach-IsValid : {s t : Tracks} → Reach s t → IsValid s → IsValid t
    Reach-IsValid here v = v
    Reach-IsValid (then_step r e) v = Step-IsValid e (Reach-IsValid r v)
