-- ===== src/ReleaseTracks/Discs.antt =====
-- The discs in a circle.
use native.Mathlib.Nat.{mod-eq_of_lt, mod-add-mod, add-mod_right}
use touhou_cloud_music_thcdb.Common.{
  ℕ, ◌+◌, ◌-◌, ◌%◌, ◌<◌, ◌≡◌, ap, ◌∙◌, false, Text, length, ◌==◌, arith,
}
use touhou_cloud_music_thcdb.ReleaseTracks.{FormArrays, Tracks, on_prev_disc, on_next_disc}

around : (i c : ℕ) → i < c → (i + c) % c ≡ i
around i c h = add-mod_right i c ∙ mod-eq_of_lt h

next_prev : (i c : ℕ) → i < c → ((i + 1) % c + c - 1) % c ≡ i
next_prev i c h =
    ap (λ n. n % c) (omega arith)
    ∙ mod-add-mod (i + 1) c (c - 1)
    ∙ ap (λ n. n % c) (omega (arith, h))
    ∙ around i c h

prev_next : (i c : ℕ) → i < c → ((i + c - 1) % c + 1) % c ≡ i
prev_next i c h = mod-add-mod (i + c - 1) c 1 ∙ ap (λ n. n % c) (omega (arith, h)) ∙ around i c h

some_disc : (i c : ℕ) → i < c → (c == 0) ≡ false
some_disc i c h = ground arith

module _ (form : FormArrays) (show : ℕ → Text) where
  -- Where the selected disc exists, the next disc and the previous one undo each other.
  pub next_prev_disc :
      (s : Tracks)
      → s.selected_disc < length s.discs
      → (on_prev_disc form show (on_next_disc form show s) ≡ s)
        × (on_next_disc form show (on_prev_disc form show s) ≡ s)
  unfolding on_prev_disc on_next_disc
  next_prev_disc s h =
      let some = some_disc s.selected_disc (length s.discs) h in
      rw (some, some)
        (
          ap (λ i. record s { selected_disc = i }) (next_prev s.selected_disc (length s.discs) h),
          ap (λ i. record s { selected_disc = i }) (prev_next s.selected_disc (length s.discs) h),
        )
