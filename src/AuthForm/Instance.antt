-- ===== src/AuthForm/Instance.antt =====
-- The user store of web/frontend/src/state/user/index.tsx as the one that the forms use.
use touhou_cloud_music_thcdb.Common.{◌≡◌, some, arith}
use touhou_cloud_music_thcdb.UserStore.{UserStore, Profile, sign_in, connect_notification_socket}
use touhou_cloud_music_thcdb.AuthForm.Interface.{Users}

pub user-sign_in : (p : Profile) (s : UserStore) → (sign_in (some p) s).user ≡ some p
unfolding sign_in connect_notification_socket
user-sign_in p s = ground arith

abbrev pub user_store : Users
user_store = record {
  Store = UserStore;
  Profile = Profile;
  sign_in = λ p s. sign_in (some p) s;
  user_of = λ s. s.user;
  user_of-sign_in = user-sign_in;
}
