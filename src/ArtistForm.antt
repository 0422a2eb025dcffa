-- ===== src/ArtistForm.antt =====
-- The edit form of an artist: the memberships and their roles and tenures in
-- web/frontend/src/view/artist/edit/comp/Membership (index.tsx, role.tsx, tenure.tsx) and the
-- aliases of Aliases.tsx beside it. Artists and roles are their ids; the form is `FormArrays`.
pub mod Tenures
pub mod Lists
mod Examples
use touhou_cloud_music_thcdb.Common.{
  ℕ, suc, Bool, true, false, not, ◌&&◌, Option, none, some, List, [], ◌∷◌, ◌++◌, ◌==◌, Text, codes,
  ℤ, ltb_ℤ, has, if◌then◌else◌, get_elem?,
}
use touhou_cloud_music_thcdb.EntityForms.{splice_out}
use touhou_cloud_music_thcdb.EntityTags.{is_number}
use touhou_cloud_music_thcdb.ReleaseTracks.{FormArrays}

-- An entry of the form: years that are no numbers are `none`; what is no record has none at all.
pub data Tenure : Type 0 where
  not_record : Tenure
  years : Option ℤ → Option ℤ → Tenure

pub record Membership : Type 0 where
  pub artist_id : ℕ
  pub roles : List ℕ
  pub tenure : List Tenure

-- The memberships of the form, and the artists that the list shows.
pub record MembershipList : Type 0 where
  pub form_items : List Membership
  pub shown : List ℕ

-- The store of the list is empty at first, whatever the form has.
abbrev pub open_form : List Membership → MembershipList
open_form items = record { form_items = items; shown = [] }

-- `membershipStore.push`
unfoldable pub push_artist : ℕ → List ℕ → List ℕ
push_artist artist shown = if has shown artist then shown else shown ++ (artist ∷ [])

abbrev pub new_membership : ℕ → Membership
new_membership artist = record { artist_id = artist; roles = []; tenure = [] }

-- Artists that the search leaves out, and the test of those it finds.
unfoldable pub exclusion : Option ℕ → List ℕ → List ℕ
exclusion none shown = shown
exclusion (some own) shown = shown ++ (own ∷ [])

unfoldable pub data_filter : MembershipList → ℕ → Bool
data_filter s artist = not (has s.shown artist)

module _ (form : FormArrays) where
  unfoldable pub add_membership : ℕ → MembershipList → MembershipList
  unfolding push_artist
  add_membership artist s = record {
    form_items = form.insert s.form_items (new_membership artist);
    shown = push_artist artist s.shown;
  }

  unfoldable pub remove_membership_at : ℕ → MembershipList → MembershipList
  remove_membership_at index s = record {
    form_items = form.remove s.form_items index;
    shown = splice_out index s.shown;
  }

-- The ids of the form and those that are shown, of aliases or of the roles of one membership.
pub record ShownIds : Type 0 where
  pub form_ids : List ℕ
  pub shown : List ℕ

abbrev pub open_ids : List ℕ → ShownIds
open_ids ids = record { form_ids = ids; shown = [] }

module _ (form : FormArrays) where
  -- The aliases.
  unfoldable pub handle_select : ℕ → ShownIds → ShownIds
  handle_select artist s =
      if has s.shown artist
      then s
      else record { form_ids = form.insert s.form_ids artist; shown = s.shown ++ (artist ∷ []) }

  unfoldable pub handle_remove : ℕ → ShownIds → ShownIds
  handle_remove index s = record {
    form_ids = form.remove s.form_ids index;
    shown = splice_out index s.shown;
  }

  -- The roles.
  unfoldable pub add_role : ℕ → ShownIds → ShownIds
  add_role role s = record {
    form_ids = form.insert s.form_ids role;
    shown = s.shown ++ (role ∷ []);
  }

  unfoldable pub remove_role : ℕ → ShownIds → ShownIds
  remove_role index s = record {
    form_ids = form.remove s.form_ids index;
    shown = splice_out index s.shown;
  }

  -- The tenures of one membership.
  unfoldable pub add_tenure : List Tenure → List Tenure
  add_tenure tenures = form.insert tenures (years none none)

  unfoldable pub remove_tenure : ℕ → List Tenure → List Tenure
  remove_tenure index tenures = form.remove tenures index

-- The roles that the search offers.
unfoldable pub role_options : List ℕ → List ℕ → List ℕ
role_options shown [] = []
role_options shown (role ∷ found) =
    let rest = role_options shown found in if has shown role then rest else role ∷ rest

pub data TenureError : Type 0 where
  leave_before_join : TenureError
  leave_at_join : TenureError
  join_before_leave : TenureError
  join_at_leave : TenureError

abbrev pub message : TenureError → Text
message leave_before_join = codes "Leave year cannot be earlier than join year"
message leave_at_join = codes "Leave year cannot be the same as join year"
message join_before_leave = codes "Join year cannot be earlier than previous leave year"
message join_at_leave = codes "Join year cannot be the same as previous leave year"

-- The first year is to be before the second.
unfoldable pub compare_years : TenureError → TenureError → Option ℤ → Option ℤ → List TenureError
unfolding is_number
compare_years earlier equal none second = []
compare_years earlier equal (some first) none = []
compare_years earlier equal (some first) (some second) =
    if ltb_ℤ second first then earlier ∷ [] else if is_number second first then equal ∷ [] else []

-- What is wrong with an entry, after the one before it, if there is one.
unfoldable pub entry_errors : Option Tenure → Tenure → List TenureError
unfolding compare_years
entry_errors prev not_record = []
entry_errors none (years join leave) = compare_years leave_before_join leave_at_join join leave
entry_errors (some not_record) (years join leave) =
    compare_years leave_before_join leave_at_join join leave
entry_errors (some (years prev_join prev_leave)) (years join leave) =
    compare_years leave_before_join leave_at_join join leave
    ++ compare_years join_before_leave join_at_leave prev_leave join

unfoldable pub errors_after : Option Tenure → List Tenure → List TenureError
unfolding entry_errors
errors_after prev [] = []
errors_after prev (tenure ∷ tenures) =
    entry_errors prev tenure ++ errors_after (some tenure) tenures

unfoldable pub compute_tenure_error : List Tenure → List TenureError
unfolding errors_after
compute_tenure_error tenures = errors_after none tenures
