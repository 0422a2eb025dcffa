-- ===== src/Combobox/Keys.antt =====
-- When scrolling becomes instant.
use touhou_cloud_music_thcdb.Common.{
  ℕ, zero, suc, ◌≡◌, refl, ◌∙◌, inl, inr, true, false, List, [], ◌∷◌, ltb, leb, max, arith,
  Bool-cases, if◌then◌else◌,
}
use touhou_cloud_music_thcdb.Toolkit.Timer.{
  Timer, called, cancelled, passed, debounced, call, cancel, fired, left, pass_ms, after,
}
use touhou_cloud_music_thcdb.Toolkit.Debounced.{
  IsSingle, after-IsSingle, clear_set-IsSingle, fires, waits, later,
}
use touhou_cloud_music_thcdb.Combobox.{
  ScrollBehavior, smooth, instant, Code, arrow_up, arrow_down, other_key, ComboboxScroll,
  scroll_delay, create_combobox_scroll, handle_key_down, handle_key_up, scroll_ms, scroll_pass,
}

pub data KeyEvent : Type 0 where
  pressed : Code → KeyEvent
  released : Code → KeyEvent
  ms_passed : KeyEvent

unfoldable pub after_key : KeyEvent → ComboboxScroll → ComboboxScroll
after_key (pressed c) s = handle_key_down c s
after_key (released c) s = handle_key_up c s
after_key ms_passed s = scroll_ms s

-- The first event comes first.
unfoldable pub after_keys : List KeyEvent → ComboboxScroll → ComboboxScroll
after_keys [] s = s
after_keys (e ∷ es) s = after_keys es (after_key e s)

abbrev BothSingle : ComboboxScroll → Type 0
BothSingle s = IsSingle s.up × IsSingle s.down

after_key-BothSingle :
    (e : KeyEvent) (s : ComboboxScroll) → BothSingle s → BothSingle (after_key e s)
unfolding after_key handle_key_down handle_key_up scroll_ms after
after_key-BothSingle (pressed arrow_up) s (u, d) =
    (after-IsSingle scroll_delay (called tt) s.up u, d)
after_key-BothSingle (pressed arrow_down) s (u, d) =
    (u, after-IsSingle scroll_delay (called tt) s.down d)
after_key-BothSingle (pressed other_key) s v = v
after_key-BothSingle (released arrow_up) s (u, d) =
    (after-IsSingle scroll_delay cancelled s.up u, d)
after_key-BothSingle (released arrow_down) s (u, d) =
    (u, after-IsSingle scroll_delay cancelled s.down d)
after_key-BothSingle (released other_key) s v = v
after_key-BothSingle ms_passed s (u, d) =
    (after-IsSingle scroll_delay passed s.up u, after-IsSingle scroll_delay passed s.down d)

after_keys-BothSingle :
    (es : List KeyEvent) (s : ComboboxScroll) → BothSingle s → BothSingle (after_keys es s)
unfolding after_keys
after_keys-BothSingle [] s v = v
after_keys-BothSingle (e ∷ es) s v =
    after_keys-BothSingle es (after_key e s) (after_key-BothSingle e s v)

-- Both keys are released after these events.
abbrev pub idle_after : List KeyEvent → ComboboxScroll
idle_after es =
    handle_key_up arrow_down (handle_key_up arrow_up (after_keys es create_combobox_scroll))

idle-timers :
    (es : List KeyEvent) → ((idle_after es).up.timers ≡ []) × ((idle_after es).down.timers ≡ [])
unfolding handle_key_up cancel create_combobox_scroll debounced
idle-timers es =
    let s = after_keys es create_combobox_scroll in
    let (u, d) = after_keys-BothSingle es create_combobox_scroll start in
    (clear_set-IsSingle s.up u, clear_set-IsSingle s.down d)
  where
    start : BothSingle create_combobox_scroll
    start = (inl refl, inl refl)

pass-idle :
    (n : ℕ) (s : ComboboxScroll)
    → s.up.timers ≡ []
    → s.down.timers ≡ []
    → (scroll_pass n s).scroll_behavior ≡ s.scroll_behavior
unfolding scroll_pass scroll_ms pass_ms fired left
pass-idle zero s u d = refl
pass-idle (suc n) s u d = pass-idle n (scroll_ms s) (rw u refl) (rw d refl) ∙ rw (u, d) refl

scroll_ms-fires :
    (s : ComboboxScroll) (t : Timer Unit)
    → s.up.timers ≡ t ∷ []
    → s.down.timers ≡ []
    → leb t.due 1 ≡ true
    → let next = scroll_ms s in
      (next.up.timers ≡ []) × (next.down.timers ≡ []) × (next.scroll_behavior ≡ instant)
unfolding scroll_ms pass_ms fired left
scroll_ms-fires s t u d p = rw (u, d, p) (refl, refl, refl)

scroll_ms-waits :
    (s : ComboboxScroll) (t : Timer Unit)
    → s.up.timers ≡ t ∷ []
    → s.down.timers ≡ []
    → leb t.due 1 ≡ false
    → let next = scroll_ms s in
      (next.up.timers ≡ later t ∷ [])
      × (next.down.timers ≡ [])
      × (next.scroll_behavior ≡ s.scroll_behavior)
unfolding scroll_ms pass_ms fired left later
scroll_ms-waits s t u d p = rw (u, d, p) (refl, refl, refl)

pass-held :
    (n : ℕ) (s : ComboboxScroll) (t : Timer Unit) (b : ScrollBehavior)
    → s.up.timers ≡ t ∷ []
    → s.down.timers ≡ []
    → s.scroll_behavior ≡ b
    → (scroll_pass n s).scroll_behavior ≡ (if ltb n (max 1 t.due) then b else instant)
unfolding scroll_pass later
pass-held zero s t b u d h = ground arith
pass-held (suc n) s t b u d h = elim (Bool-cases (leb t.due 1)) [
  | inl p ↦
      let (u2, d2, made) = scroll_ms-fires s t u d p in
      rw (fires n t.due p) (pass-idle n (scroll_ms s) u2 d2 ∙ made)
  | inr p ↦
      let (u2, d2, kept) = scroll_ms-waits s t u d p in
      rw (waits n t.due p) (pass-held n (scroll_ms s) (later t) b u2 d2 (kept ∙ h))
]

-- Once both arrow keys have been released, whatever was pressed before, scrolling is smooth and
-- stays so; and if the up arrow is then held, it is smooth for 150 ms and instant from then on.
pub scroll_behavior-held :
    (es : List KeyEvent) (n : ℕ)
    → ((scroll_pass n (idle_after es)).scroll_behavior ≡ smooth)
      × ((scroll_pass n (handle_key_down arrow_up (idle_after es))).scroll_behavior
          ≡ (if ltb n scroll_delay then smooth else instant))
unfolding handle_key_down handle_key_up call
scroll_behavior-held es n =
    let s = idle_after es in
    let (u, d) = idle-timers es in
    let made : Timer Unit = record { handle = s.up.next; due = scroll_delay; args = tt } in
    (
      pass-idle n s u d,
      pass-held n (handle_key_down arrow_up s) made smooth
          (rw (clear_set-IsSingle s.up (inl u)) refl) d refl,
    )
