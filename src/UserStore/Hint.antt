-- ===== src/UserStore/Hint.antt =====
-- The hint that somebody is signed in: SignedInHint_check and SignedInHint_set of
-- web/frontend/src/state/user/index.tsx.
use touhou_cloud_music_thcdb.Common.{Bool, true, false, Option, none, some, Text, text_eq, codes}

-- `localStorage` under the key "is_signed_in"; in some browsers every access throws.
pub data Storage : Type 0 where
  closed : Storage
  holding : Option Text → Storage

unfoldable pub signed_in_hint_check : Storage → Bool
signed_in_hint_check closed = false
signed_in_hint_check (holding none) = false
signed_in_hint_check (holding (some v)) = text_eq v (codes "1")

unfoldable pub signed_in_hint_set : Bool → Storage → Storage
signed_in_hint_set value closed = closed
signed_in_hint_set true (holding v) = holding (some (codes "1"))
signed_in_hint_set false (holding v) = holding none
