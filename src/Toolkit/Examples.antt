-- ===== src/Toolkit/Examples.antt =====
-- The toolkit on small inputs, with numbers for keys.
use touhou_cloud_music_thcdb.Common.{
  ℕ, ◌%◌, ◌≡◌, refl, ◌==◌, List, [], ◌∷◌, ◌++◌, ltb, max, if◌then◌else◌,
}
use touhou_cloud_music_thcdb.Toolkit.Arrays.{dedupe_by, dedupe_loop, set_has}
use touhou_cloud_music_thcdb.Toolkit.Timer.{
  Event, called, cancelled, passed, debounced, call, cancel, pass, after_all, after, pass_ms, fired,
  clear_set, clear_timeout, left,
}
use touhou_cloud_music_thcdb.Toolkit.Refinement.{view, meant_all, nothing_waits, after_all-meant}
use touhou_cloud_music_thcdb.Toolkit.Debounced.{debounced-runs}

abbrev items : List ℕ
items = 11 ∷ 22 ∷ 31 ∷ 42 ∷ []

abbrev last_digit : ℕ → ℕ
last_digit n = n % 10

deduped_items : dedupe_by ◌==◌ items last_digit ≡ 11 ∷ 22 ∷ []
unfolding dedupe_by dedupe_loop set_has
deduped_items = refl

abbrev events : List (Event ℕ)
events = called 1 ∷ passed ∷ called 2 ∷ passed ∷ passed ∷ passed ∷ called 3 ∷ cancelled ∷ []

only_the_second_runs : (after_all 3 events debounced).calls ≡ 2 ∷ []
unfolding after_all debounced after cancel call pass_ms fired clear_set clear_timeout left
only_the_second_runs = refl

debounced-runs_example :
    let before = after_all 3 events debounced in
    ((pass 5 (call 3 4 before)).calls
      ≡ (if ltb 5 (max 1 3) then before.calls else before.calls ++ (4 ∷ [])))
    × ((pass 5 (cancel before)).calls ≡ before.calls)
debounced-runs_example = debounced-runs 3 5 events 4

after_all-meant_example : view (after_all 3 events debounced) ≡ meant_all 3 events nothing_waits
after_all-meant_example = after_all-meant 3 events
