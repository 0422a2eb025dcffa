-- ===== src/Toolkit/Refinement.antt =====
-- The debounced function against what it is meant to be: at most one call waits.
use mathlib.Core.List.{append-nil}
use touhou_cloud_music_thcdb.Common.{
  ℕ, ◌-◌, ◌≡◌, refl, ap, ◌∙◌, inl, inr, List, [], ◌∷◌, ◌++◌, Option, some, none, leb, if◌then◌else◌,
  Bool-cases,
}
use touhou_cloud_music_thcdb.Toolkit.Timer.{
  Timer, Debounced, Event, called, cancelled, passed, debounced, call, cancel, left, fired, pass_ms,
  after, after_all,
}
use touhou_cloud_music_thcdb.Toolkit.Debounced.{
  IsSingle, later, after-IsSingle, clear_set-IsSingle, pass_ms-fires, pass_ms-waits,
}

-- The call that waits, with the ms left until it is made, and the calls so far.
pub record Waiting (Args : Type 0) : Type 0 where
  pub waiting : Option (ℕ × Args)
  pub made : List Args

module _ {Args : Type 0} where
  abbrev pub nothing_waits : Waiting Args
  nothing_waits = record { waiting = none; made = [] }

  abbrev pub one_ms_less : Option (ℕ × Args) → List Args → Waiting Args
  one_ms_less none made = record { waiting = none; made = made }
  one_ms_less (some (due, a)) made =
      if leb due 1
      then record { waiting = none; made = made ++ (a ∷ []) }
      else record { waiting = some (due - 1, a); made = made }

  -- A call replaces the one that waits, a cancellation drops it.
  unfoldable pub meant : ℕ → Event Args → Waiting Args → Waiting Args
  meant timeout (called a) w = record w { waiting = some (timeout, a) }
  meant timeout cancelled w = record w { waiting = none }
  meant timeout passed w = one_ms_less w.waiting w.made

  unfoldable pub meant_all : ℕ → List (Event Args) → Waiting Args → Waiting Args
  meant_all timeout [] w = w
  meant_all timeout (e ∷ es) w = meant_all timeout es (meant timeout e w)

  abbrev pub first_timer : List (Timer Args) → Option (ℕ × Args)
  first_timer [] = none
  first_timer (t ∷ timers) = some (t.due, t.args)

  -- Handles and timers are forgotten.
  abbrev pub view : Debounced Args → Waiting Args
  view s = record { waiting = first_timer s.timers; made = s.calls }

  pass_ms-nothing :
      (s : Debounced Args)
      → s.timers ≡ []
      → ((pass_ms s).timers ≡ []) × ((pass_ms s).calls ≡ s.calls)
  unfolding pass_ms left fired
  pass_ms-nothing s e = rw e (refl, append-nil s.calls)

  view-after :
      (timeout : ℕ) (e : Event Args) (s : Debounced Args)
      → IsSingle s
      → view (after timeout e s) ≡ meant timeout e (view s)
  unfolding meant after call cancel later
  view-after timeout (called a) s v = rw (clear_set-IsSingle s v) refl
  view-after timeout cancelled s v = rw (clear_set-IsSingle s v) refl
  view-after timeout passed s (inl e) =
      let (none_left, kept) = pass_ms-nothing s e in rw (none_left, kept, e) refl
  view-after timeout passed s (inr (t, e, h)) = elim (Bool-cases (leb t.due 1)) [
    | inl p ↦ let (gone, done) = pass_ms-fires s t e p in rw (gone, done, e, p) refl
    | inr p ↦ let (set, kept) = pass_ms-waits s t e p in rw (set, kept, e, p) refl
  ]

  view-all :
      (timeout : ℕ) (es : List (Event Args)) (s : Debounced Args)
      → IsSingle s
      → view (after_all timeout es s) ≡ meant_all timeout es (view s)
  unfolding after_all meant_all
  view-all timeout [] s v = refl
  view-all timeout (e ∷ es) s v =
      view-all timeout es (after timeout e s) (after-IsSingle timeout e s v)
      ∙ ap (meant_all timeout es) (view-after timeout e s v)

  -- A debounced function, with its handles and timers forgotten, does in every order of calls,
  -- cancellations and ms what is meant: at most one call waits, a call replaces it and starts its
  -- time again, a cancellation drops it, and it is made in the ms in which its time has passed.
  pub after_all-meant :
      (timeout : ℕ) (es : List (Event Args))
      → view (after_all timeout es debounced) ≡ meant_all timeout es nothing_waits
  unfolding debounced
  after_all-meant timeout es = view-all timeout es debounced (inl refl)
