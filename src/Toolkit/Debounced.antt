-- ===== src/Toolkit/Debounced.antt =====
-- When a debounced function calls what it wraps.
use mathlib.Core.List.{append-nil}
use touhou_cloud_music_thcdb.Common.{
  ℕ, zero, suc, ◌-◌, ◌≡◌, refl, ap, ◌∙◌, ◌⊎◌, inl, inr, max, ltb, leb, true, false, List, [], ◌∷◌,
  ◌++◌, Option, some, none, if◌then◌else◌, arith, Bool-cases,
}
use touhou_cloud_music_thcdb.Toolkit.Timer.{
  Timer, Debounced, Event, called, cancelled, passed, debounced, clear_timeout, clear_set, call,
  cancel, left, fired, pass_ms, pass, after, after_all,
}

pub fires : (n due : ℕ) → leb due 1 ≡ true → ltb (suc n) (max 1 due) ≡ false
fires n due p = ground arith

pub waits : (n due : ℕ) → leb due 1 ≡ false → ltb (suc n) (max 1 due) ≡ ltb n (max 1 (due - 1))
waits n due p = ground arith

module _ {Args : Type 0} where
  -- No timer is set but the one whose handle is in `timer`.
  abbrev pub IsSingle : Debounced Args → Type 0
  IsSingle s =
      (s.timers ≡ []) ⊎ ((t : Timer Args) × (s.timers ≡ t ∷ []) × (s.timer ≡ some t.handle))

  clear_set-nil : (h : Option ℕ) → clear_set {Args = Args} h [] ≡ []
  unfolding clear_set clear_timeout
  clear_set-nil none = refl
  clear_set-nil (some h) = refl

  pub clear_set-IsSingle : (s : Debounced Args) → IsSingle s → clear_set s.timer s.timers ≡ []
  unfolding clear_set clear_timeout
  clear_set-IsSingle s (inl e) = rw e (clear_set-nil s.timer)
  clear_set-IsSingle s (inr (t, e, h)) = rw (e, h) ground arith

  unfoldable pub later : Timer Args → Timer Args
  later t = record t { due = t.due - 1 }

  pub pass_ms-fires :
      (s : Debounced Args) (t : Timer Args)
      → s.timers ≡ t ∷ []
      → leb t.due 1 ≡ true
      → ((pass_ms s).timers ≡ []) × ((pass_ms s).calls ≡ s.calls ++ (t.args ∷ []))
  unfolding pass_ms left fired
  pass_ms-fires s t e p = rw (e, p) (refl, refl)

  pub pass_ms-waits :
      (s : Debounced Args) (t : Timer Args)
      → s.timers ≡ t ∷ []
      → leb t.due 1 ≡ false
      → ((pass_ms s).timers ≡ later t ∷ []) × ((pass_ms s).calls ≡ s.calls)
  unfolding pass_ms left fired later
  pass_ms-waits s t e p = rw (e, p) (refl, append-nil s.calls)

  pub after-IsSingle :
      (timeout : ℕ) (e : Event Args) (s : Debounced Args)
      → IsSingle s
      → IsSingle (after timeout e s)
  unfolding after call cancel pass_ms left later
  after-IsSingle timeout (called a) s v = inr (made, rw (clear_set-IsSingle s v) refl, refl)
    where
      made : Timer Args
      made = record { handle = s.next; due = timeout; args = a }
  after-IsSingle timeout cancelled s v = inl (clear_set-IsSingle s v)
  after-IsSingle timeout passed s (inl e) = inl (rw e refl)
  after-IsSingle timeout passed s (inr (t, e, h)) = elim (Bool-cases (leb t.due 1)) [
    | inl p ↦ inl (pass_ms-fires s t e p).0
    | inr p ↦ inr (later t, (pass_ms-waits s t e p).0, h)
  ]

  after_all-IsSingle :
      (timeout : ℕ) (es : List (Event Args)) (s : Debounced Args)
      → IsSingle s
      → IsSingle (after_all timeout es s)
  unfolding after_all
  after_all-IsSingle timeout [] s v = v
  after_all-IsSingle timeout (e ∷ es) s v =
      after_all-IsSingle timeout es (after timeout e s) (after-IsSingle timeout e s v)

  pass-nothing : (n : ℕ) (s : Debounced Args) → s.timers ≡ [] → (pass n s).calls ≡ s.calls
  unfolding pass pass_ms left fired
  pass-nothing zero s e = refl
  pass-nothing (suc n) s e = pass-nothing n (pass_ms s) (rw e refl) ∙ rw e (append-nil s.calls)

  pass-one :
      (n : ℕ) (s : Debounced Args) (t : Timer Args) (c : List Args)
      → s.timers ≡ t ∷ []
      → s.calls ≡ c
      → (pass n s).calls ≡ (if ltb n (max 1 t.due) then c else c ++ (t.args ∷ []))
  unfolding pass later
  pass-one zero s t c e k = ground arith
  pass-one (suc n) s t c e k = elim (Bool-cases (leb t.due 1)) [
    | inl p ↦
        let (gone, made) = pass_ms-fires s t e p in
        rw (fires n t.due p)
          (pass-nothing n (pass_ms s) gone ∙ made ∙ ap (λ d. d ++ (t.args ∷ [])) k)
    | inr p ↦
        let (set, kept) = pass_ms-waits s t e p in
        rw (waits n t.due p) (pass-one n (pass_ms s) (later t) c set (kept ∙ k))
  ]

  call-runs :
      (timeout n : ℕ) (a : Args) (s : Debounced Args)
      → IsSingle s
      → (pass n (call timeout a s)).calls
        ≡ (if ltb n (max 1 timeout) then s.calls else s.calls ++ (a ∷ []))
  unfolding call
  call-runs timeout n a s v =
      let made : Timer Args = record { handle = s.next; due = timeout; args = a } in
      pass-one n (call timeout a s) made s.calls (rw (clear_set-IsSingle s v) refl) refl

  cancel-stops : (n : ℕ) (s : Debounced Args) → IsSingle s → (pass n (cancel s)).calls ≡ s.calls
  unfolding cancel
  cancel-stops n s v = pass-nothing n (cancel s) (clear_set-IsSingle s v)

  -- After any calls, cancellations and ms, a call is made exactly once when its timeout, at least
  -- one ms, has passed without another, with its own arguments, and nothing is called before; after
  -- a cancellation nothing that was waiting is ever called.
  pub debounced-runs :
      (timeout n : ℕ) (es : List (Event Args)) (a : Args)
      → let before = after_all timeout es debounced in
        ((pass n (call timeout a before)).calls
          ≡ (if ltb n (max 1 timeout) then before.calls else before.calls ++ (a ∷ [])))
        × ((pass n (cancel before)).calls ≡ before.calls)
  unfolding debounced
  debounced-runs timeout n es a =
      let before = after_all timeout es debounced in
      let single = after_all-IsSingle timeout es debounced (inl refl) in
      (call-runs timeout n a before single, cancel-stops n before single)
