-- ===== src/AuthForm/Interface.antt =====
-- What the forms need of the user store (web/frontend/src/state/user/index.tsx).
use touhou_cloud_music_thcdb.Common.{◌≡◌, Option, some}

pub record Users : Type 1 where
  pub Store : Type 0
  pub Profile : Type 0
  pub sign_in : Profile → Store → Store
  pub user_of : Store → Option Profile
  pub user_of-sign_in : (p : Profile) (s : Store) → user_of (sign_in p s) ≡ some p
