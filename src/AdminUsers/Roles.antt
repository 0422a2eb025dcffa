-- ===== src/AdminUsers/Roles.antt =====
-- The roles after one of them is ticked or unticked.
use touhou_cloud_music_thcdb.Common.{
  ◌≡◌, refl, ap, ◌∙◌, inl, inr, Bool, true, false, ◌||◌, List, [], ◌∷◌, ◌++◌, Text, text_eq,
  text_eq_iff, arith, Bool-cases, if◌then◌else◌,
}
use touhou_cloud_music_thcdb.AdminUsers.{has_role, set_of, delete_role, toggle_role_selection}

has_role-append :
    (xs ys : List Text) (r : Text) → has_role (xs ++ ys) r ≡ (has_role xs r || has_role ys r)
has_role-append [] ys r = refl
has_role-append (x ∷ xs) ys r = ground (arith, has_role-append xs ys r)

has_role-set_of :
    (seen roles : List Text) (r : Text)
    → has_role (set_of seen roles) r ≡ (has_role seen r || has_role roles r)
unfolding set_of
has_role-set_of seen [] r = ground arith
has_role-set_of seen (x ∷ roles) r = elim (Bool-cases (has_role seen x)) [
  | inl e ↦ elim (Bool-cases (text_eq x r)) [
    | inl p ↦
        simp (set_of, e, p)
          (ground
            (arith, has_role-set_of seen roles r, ap (has_role seen) ((text_eq_iff x r).0 p), e))
    | inr p ↦ simp (set_of, e, p) (has_role-set_of seen roles r)
  ]
  | inr e ↦
      simp (set_of, e)
        (ground
          (arith, has_role-set_of (seen ++ (x ∷ [])) roles r, has_role-append seen (x ∷ []) r))
]

has_role-delete :
    (role : Text) (roles : List Text) (r : Text)
    → has_role (delete_role role roles) r ≡ (if text_eq role r then false else has_role roles r)
unfolding delete_role
has_role-delete role [] r = ground arith
has_role-delete role (x ∷ roles) r =
    ground
      (arith, has_role-delete role roles r, text_eq_iff x role, text_eq_iff x r, text_eq_iff role r)

-- After a role is ticked or unticked, that role is selected exactly when it was ticked, and all
-- others as before.
pub toggle_role_selection-has :
    (roles : List Text) (role r : Text) (checked : Bool)
    → has_role (toggle_role_selection roles role checked) r
      ≡ (if text_eq role r then checked else has_role roles r)
unfolding toggle_role_selection
toggle_role_selection-has roles role r true = elim (Bool-cases (text_eq role r)) [
  | inl e ↦
      let same = ap (has_role (set_of [] roles)) ((text_eq_iff role r).0 e) in
      ground (arith, has_role-append (set_of [] roles) (role ∷ []) r, same, e)
  | inr e ↦
      ground (arith, has_role-set_of [] roles r, has_role-append (set_of [] roles) (role ∷ []) r, e)
]
toggle_role_selection-has roles role r false =
    has_role-delete role (set_of [] roles) r
    ∙ ap (λ b. if text_eq role r then false else b) (has_role-set_of [] roles r)
