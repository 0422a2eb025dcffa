-- ===== src/Toolkit/Timer.antt =====
-- Debounced functions: `createDebounced` of web/frontend/packages/toolkit/timer.ts, with the timers
-- of the browser. A timer that is set for n ms fires in the n-th ms, or in the next for n = 0; its
-- handle is never 0, so the test of `timer` asks whether one was ever set.
use touhou_cloud_music_thcdb.Common.{
  ℕ, zero, suc, ◌-◌, List, [], ◌∷◌, ◌++◌, Option, none, some, leb, ◌==◌, if◌then◌else◌,
}

-- A timer that is set: its handle, the ms until it fires and the arguments of its call.
pub record Timer (Args : Type 0) : Type 0 where
  pub handle : ℕ
  pub due : ℕ
  pub args : Args

-- The variable `timer`, the timers that are set, the next handle, and the calls of `fn` so far.
pub record Debounced (Args : Type 0) : Type 0 where
  pub timer : Option ℕ
  pub timers : List (Timer Args)
  pub next : ℕ
  pub calls : List Args

module _ {Args : Type 0} where
  unfoldable pub debounced : Debounced Args
  debounced = record { timer = none; timers = []; next = 1; calls = [] }

  -- `clearTimeout`; a handle whose timer has fired is ignored.
  unfoldable pub clear_timeout : ℕ → List (Timer Args) → List (Timer Args)
  clear_timeout h [] = []
  clear_timeout h (t ∷ timers) =
      let rest = clear_timeout h timers in if t.handle == h then rest else t ∷ rest

  unfoldable pub clear_set : Option ℕ → List (Timer Args) → List (Timer Args)
  clear_set none timers = timers
  clear_set (some h) timers = clear_timeout h timers

  -- A call of the debounced function with its arguments.
  unfoldable pub call : ℕ → Args → Debounced Args → Debounced Args
  call timeout args s = record {
    timer = some s.next;
    timers =
        clear_set s.timer s.timers ++ (record { handle = s.next; due = timeout; args = args } ∷ []);
    next = suc s.next;
    calls = s.calls;
  }

  unfoldable pub cancel : Debounced Args → Debounced Args
  cancel s = record s { timer = none; timers = clear_set s.timer s.timers }

  -- The timers that stay set after another ms, and the calls that are made in it.
  unfoldable pub left : List (Timer Args) → List (Timer Args)
  left [] = []
  left (t ∷ timers) =
      let rest = left timers in if leb t.due 1 then rest else record t { due = t.due - 1 } ∷ rest

  unfoldable pub fired : List (Timer Args) → List Args
  fired [] = []
  fired (t ∷ timers) = let rest = fired timers in if leb t.due 1 then t.args ∷ rest else rest

  -- One ms passes.
  unfoldable pub pass_ms : Debounced Args → Debounced Args
  pass_ms s = record s { timers = left s.timers; calls = s.calls ++ fired s.timers }

  unfoldable pub pass : ℕ → Debounced Args → Debounced Args
  pass zero s = s
  pass (suc n) s = pass n (pass_ms s)

-- What happens to a debounced function.
pub data Event (Args : Type 0) : Type 0 where
  called : Args → Event Args
  cancelled : Event Args
  passed : Event Args

module _ {Args : Type 0} where
  unfoldable pub after : ℕ → Event Args → Debounced Args → Debounced Args
  after timeout (called args) s = call timeout args s
  after timeout cancelled s = cancel s
  after timeout passed s = pass_ms s

  -- The first event comes first.
  unfoldable pub after_all : ℕ → List (Event Args) → Debounced Args → Debounced Args
  after_all timeout [] s = s
  after_all timeout (e ∷ es) s = after_all timeout es (after timeout e s)
