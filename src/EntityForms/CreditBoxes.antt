-- ===== src/EntityForms/CreditBoxes.antt =====
-- The boxes of the tracks that a credit names, in
-- web/frontend/src/view/release/edit/comp/ReleaseCreditsField.tsx, and what the schemas of
-- web/frontend/src/domain/release/schema.ts and domain/shared/schema.ts say of the tracks.
use touhou_cloud_music_thcdb.Common.{
  ℕ, ◌<◌, ◌≡◌, refl, ◌∙◌, Bool, true, false, not, ◌&&◌, ◌||◌, Option, none, some, List, [], ◌∷◌,
  ◌++◌, ◌==◌, leb, has, or_else, if◌then◌else◌, arith,
}

-- `filter((i) => i !== idx)`
unfoldable pub without : ℕ → List ℕ → List ℕ
without idx [] = []
without idx (i ∷ is) = let rest = without idx is in if i == idx then rest else i ∷ rest

unfoldable pub get_checked : Option (List ℕ) → ℕ → Bool
get_checked none idx = false
get_checked (some on) idx = has on idx

-- A click on the box of a track, which is checked now or not.
unfoldable pub update_input : ℕ → Bool → Option (List ℕ) → Option (List ℕ)
unfolding without
update_input idx checked curr =
    let prev = or_else curr [] in
    if checked
    then if has prev idx then curr else some (prev ++ (idx ∷ []))
    else if has prev idx
    then some (without idx prev)
    else curr

-- `i32_MAX`
abbrev pub i32_max : ℕ
i32_max = 2147483647

-- `EntityId`, of a number that is an integer and not below 0.
unfoldable pub is_entity_id : ℕ → Bool
is_entity_id n = leb 1 n && leb n i32_max

unfoldable pub are_entity_ids : List ℕ → Bool
unfolding is_entity_id
are_entity_ids [] = true
are_entity_ids (n ∷ ns) = is_entity_id n && are_entity_ids ns

-- `v.nullish(v.array(EntityId))`
unfoldable pub accepts_on : Option (List ℕ) → Bool
unfolding are_entity_ids
accepts_on none = true
accepts_on (some on) = are_entity_ids on

has-append : (xs : List ℕ) (x a : ℕ) → has (xs ++ (x ∷ [])) a ≡ (has xs a || x == a)
has-append [] x a = ground arith
has-append (y ∷ xs) x a = ground (arith, has-append xs x a)

has-without : (xs : List ℕ) (x : ℕ) → has (without x xs) x ≡ false
unfolding without
has-without [] x = refl
has-without (y ∷ xs) x = ground (arith, has-without xs x)

has-without_other : (xs : List ℕ) (x a : ℕ) → (x == a) ≡ false → has (without x xs) a ≡ has xs a
unfolding without
has-without_other [] x a n = refl
has-without_other (y ∷ xs) x a n = ground (arith, has-without_other xs x a n)

-- After a click the box of the track shows what it was set to.
pub get_checked-update_input :
    (idx : ℕ) (checked : Bool) (curr : Option (List ℕ))
    → get_checked (update_input idx checked curr) idx ≡ checked
unfolding get_checked update_input
get_checked-update_input idx true none = ground arith
get_checked-update_input idx false none = refl
get_checked-update_input idx true (some on) = ground (arith, has-append on idx idx)
get_checked-update_input idx false (some on) = ground (arith, has-without on idx)

-- The boxes of the other tracks are left as they were.
pub get_checked-update_input_other :
    (idx a : ℕ) (checked : Bool) (curr : Option (List ℕ))
    → (idx == a) ≡ false
    → get_checked (update_input idx checked curr) a ≡ get_checked curr a
unfolding get_checked update_input
get_checked-update_input_other idx a true none n = ground arith
get_checked-update_input_other idx a false none n = refl
get_checked-update_input_other idx a true (some on) n = ground (arith, has-append on idx a)
get_checked-update_input_other idx a false (some on) n =
    ground (arith, has-without_other on idx a n)

are_entity_ids-append :
    (xs : List ℕ) (x : ℕ) → are_entity_ids (xs ++ (x ∷ [])) ≡ (are_entity_ids xs && is_entity_id x)
unfolding are_entity_ids
are_entity_ids-append [] x = ground arith
are_entity_ids-append (y ∷ xs) x = ground (arith, are_entity_ids-append xs x)

are_entity_ids-without :
    (xs : List ℕ) (x : ℕ) → are_entity_ids xs ≡ true → are_entity_ids (without x xs) ≡ true
unfolding are_entity_ids without
are_entity_ids-without [] x h = refl
are_entity_ids-without (y ∷ xs) x h = ground (arith, are_entity_ids-without xs x)

has-is_entity_id :
    (xs : List ℕ) (x : ℕ) → are_entity_ids xs ≡ true → has xs x ≡ true → is_entity_id x ≡ true
unfolding are_entity_ids
has-is_entity_id [] x h e = ground arith
has-is_entity_id (y ∷ xs) x h e = ground (arith, has-is_entity_id xs x)

checked-accepted :
    (t : ℕ) (curr : Option (List ℕ))
    → accepts_on curr ≡ true
    → accepts_on (update_input t true curr) ≡ is_entity_id t
unfolding accepts_on update_input
checked-accepted t none h = ground arith
checked-accepted t (some on) h = ground (arith, are_entity_ids-append on t, has-is_entity_id on t)

cleared-accepted :
    (t : ℕ) (curr : Option (List ℕ))
    → accepts_on curr ≡ true
    → accepts_on (update_input t false curr) ≡ true
unfolding accepts_on update_input
cleared-accepted t none h = refl
cleared-accepted t (some on) h = ground (arith, are_entity_ids-without on t)

in_range : (t : ℕ) → t < 2147483648 → is_entity_id t ≡ not (t == 0)
unfolding is_entity_id
in_range t h = ground arith

-- The tracks of a credit, which the schema accepts so far, and the box of a track whose index is
-- below 2^31: once it is checked the schema still accepts them exactly when the track is not the
-- first, whose index 0 is no id; once it is cleared they are accepted.
pub first_track-refused :
    (t : ℕ) (curr : Option (List ℕ))
    → t < 2147483648
    → accepts_on curr ≡ true
    → (accepts_on (update_input t true curr) ≡ not (t == 0))
      × (accepts_on (update_input t false curr) ≡ true)
first_track-refused t curr b h =
    (checked-accepted t curr h ∙ in_range t b, cleared-accepted t curr h)
