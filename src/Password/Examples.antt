-- ===== src/Password/Examples.antt =====
-- A password that is scored by its length.
use touhou_cloud_music_thcdb.Common.{
  ◌≡◌, ◌↔◌, true, List, [], ◌∷◌, Text, codes, arith, if◌then◌else◌,
}
use touhou_cloud_music_thcdb.Password.{Action}
use touhou_cloud_music_thcdb.Password.Requirements.{all_pass}

-- The messages of the actions that fail.
abbrev failures : List Action → List Text
failures [] = []
failures (a ∷ actions) = if a.passes then failures actions else a.message ∷ failures actions

failures_iff : (actions : List Action) → (failures actions ≡ []) ↔ (all_pass actions ≡ true)
failures_iff [] = ground arith
failures_iff (a ∷ actions) = ground (arith, failures_iff actions)

abbrev secret : Text
secret = codes "cirno-9-strongest"
