-- ===== src/Toolkit/Dedupe.antt =====
-- What `dedupeBy` keeps, and in which order.
use mathlib.Core.Bool.{true≢false}
use mathlib.Core.List.{append-nil, append_assoc}
use touhou_cloud_music_thcdb.Common.{
  ◌≡◌, refl, ap, sym, ◌∙◌, ◌↔◌, inl, inr, Bool, true, false, List, [], ◌∷◌, ◌++◌, map, In,
  if◌then◌else◌, arith, Bool-cases,
}
use touhou_cloud_music_thcdb.Toolkit.Arrays.{set_has, dedupe_loop, dedupe_by}

-- No item occurs twice.
abbrev pub IsDistinct : {K : Type 0} → List K → Type 0
IsDistinct [] = Unit
IsDistinct (k ∷ ks) = (¬ In k ks) × IsDistinct ks

module _ {K A : Type 0} (same : K → K → Bool) (f : A → K) where
  -- The items whose key is not the given one.
  unfoldable pub without : K → List A → List A
  without key [] = []
  without key (item ∷ self) =
      let rest = without key self in if same key (f item) then rest else item ∷ rest

  -- The first item of every key, by removing the later items of each.
  unfoldable pub first_of_each : List A → List A
  first_of_each [] = []
  first_of_each (item ∷ self) = item ∷ without (f item) (first_of_each self)

  unfoldable without_all : List K → List A → List A
  without_all [] self = self
  without_all (k ∷ seen) self = without_all seen (without k self)

  without_all-nil : (seen : List K) → without_all seen [] ≡ []
  unfolding without_all without
  without_all-nil [] = refl
  without_all-nil (k ∷ seen) = without_all-nil seen

  without_all-cons :
      (seen : List K) (item : A) (self : List A)
      → without_all seen (item ∷ self) ≡ (
          if set_has same seen (f item)
          then without_all seen self
          else item ∷ without_all seen self)
  unfolding without_all without set_has
  without_all-cons [] item self = refl
  without_all-cons (k ∷ seen) item self = elim (Bool-cases (same k (f item))) [
    | inl p ↦ simp p
    | inr p ↦ simp p (without_all-cons seen item (without k self))
  ]

  without_idem : (k : K) (self : List A) → without k (without k self) ≡ without k self
  unfolding without
  without_idem k [] = refl
  without_idem k (item ∷ self) = elim (Bool-cases (same k (f item))) [
    | inl p ↦ simp p (without_idem k self)
    | inr p ↦ simp p (ap (◌∷◌ item) (without_idem k self))
  ]

  without_comm : (k j : K) (self : List A) → without k (without j self) ≡ without j (without k self)
  unfolding without
  without_comm k j [] = refl
  without_comm k j (item ∷ self) = elim (Bool-cases (same k (f item))) [
    | inl p ↦ elim (Bool-cases (same j (f item))) [
      | inl q ↦ simp (p, q) (without_comm k j self)
      | inr q ↦ simp (p, q) (without_comm k j self)
    ]
    | inr p ↦ elim (Bool-cases (same j (f item))) [
      | inl q ↦ simp (p, q) (without_comm k j self)
      | inr q ↦ simp (p, q) (ap (◌∷◌ item) (without_comm k j self))
    ]
  ]

  set_has-tail :
      (seen : List K) (k key : K)
      → same k key ≡ false
      → set_has same (k ∷ seen) key ≡ true
      → set_has same seen key ≡ true
  unfolding set_has
  set_has-tail seen k key p h = ground arith

  module _ (same_iff : (a b : K) → (same a b ≡ true) ↔ (a ≡ b)) where
    without_all-seen :
        (seen : List K) (key : K) (self : List A)
        → set_has same seen key ≡ true
        → without_all seen (without key self) ≡ without_all seen self
    unfolding without_all set_has
    without_all-seen [] key self h = cc
    without_all-seen (k ∷ seen) key self h = elim (Bool-cases (same k key)) [
      | inl p ↦ rw ((same_iff k key).0 p) (ap (without_all seen) (without_idem key self))
      | inr p ↦
          rw (without_comm k key self)
            (without_all-seen seen key (without k self) (set_has-tail seen k key p h))
    ]

    loop-first :
        (self : List A) (seen : List K) (result : List A)
        → dedupe_loop same f seen result self ≡ result ++ without_all seen (first_of_each self)
    unfolding dedupe_loop first_of_each without_all
    loop-first [] seen result = rw (without_all-nil seen) (sym (append-nil result))
    loop-first (item ∷ self) seen result = elim (Bool-cases (set_has same seen (f item))) [
      | inl p ↦
          rw
            (
              p,
              without_all-cons seen item (without (f item) (first_of_each self)),
              p,
              without_all-seen seen (f item) (first_of_each self) p,
            )
            (loop-first self seen result)
      | inr p ↦
          rw (p, without_all-cons seen item (without (f item) (first_of_each self)), p)
            (loop-first self (f item ∷ seen) (result ++ (item ∷ []))
              ∙ append_assoc result (item ∷ []) (without_all (f item ∷ seen) (first_of_each self)))
    ]

    -- `dedupeBy` keeps of every key the first item, in their order.
    dedupe_by-eq-first_of_each : (self : List A) → dedupe_by same self f ≡ first_of_each self
    unfolding dedupe_by without_all
    dedupe_by-eq-first_of_each self = loop-first self [] []

    without-keys :
        (k j : K) (self : List A)
        → In j (map f (without k self))
        → (same k j ≡ false) × In j (map f self)
    unfolding without
    without-keys k j [] = λ h. absurd h
    without-keys k j (item ∷ self) = elim (Bool-cases (same k (f item))) [
      | inl p ↦ simp p (λ h. ((without-keys k j self h).0, inr (without-keys k j self h).1))
      | inr p ↦ simp p (elim [
        | inl e ↦ (ap (same k) (sym e) ∙ p, inl e)
        | inr h ↦ ((without-keys k j self h).0, inr (without-keys k j self h).1)
      ])
    ]

    keys-without :
        (k j : K) (self : List A)
        → same k j ≡ false
        → In j (map f self)
        → In j (map f (without k self))
    unfolding without
    keys-without k j [] n = λ h. h
    keys-without k j (item ∷ self) n = elim (Bool-cases (same k (f item))) [
      | inl p ↦ simp p (elim [
        | inl e ↦ absurd (true≢false (sym p ∙ ap (same k) e ∙ n))
        | inr h ↦ keys-without k j self n h
      ])
      | inr p ↦ simp p (elim [ inl e ↦ inl e | inr h ↦ inr (keys-without k j self n h) ])
    ]

    without-IsDistinct :
        (k : K) (self : List A) → IsDistinct (map f self) → IsDistinct (map f (without k self))
    unfolding without
    without-IsDistinct k [] d = d
    without-IsDistinct k (item ∷ self) (new, d) = elim (Bool-cases (same k (f item))) [
      | inl p ↦ simp p (without-IsDistinct k self d)
      | inr p ↦ simp p (λ h. new (without-keys k (f item) self h).1, without-IsDistinct k self d)
    ]

    first-IsDistinct : (self : List A) → IsDistinct (map f (first_of_each self))
    unfolding first_of_each
    first-IsDistinct [] = tt
    first-IsDistinct (item ∷ self) = (
      λ h. true≢false (
          sym ((same_iff (f item) (f item)).1 refl)
          ∙ (without-keys (f item) (f item) (first_of_each self) h).0),
      without-IsDistinct (f item) (first_of_each self) (first-IsDistinct self),
    )

    first-keys : (j : K) (self : List A) → In j (map f self) → In j (map f (first_of_each self))
    unfolding first_of_each
    first-keys j [] h = h
    first-keys j (item ∷ self) (inl e) = inl e
    first-keys j (item ∷ self) (inr h) = elim (Bool-cases (same (f item) j)) [
      | inl p ↦ inl ((same_iff (f item) j).0 p)
      | inr p ↦ inr (keys-without (f item) j (first_of_each self) p (first-keys j self h))
    ]

    keys-first : (j : K) (self : List A) → In j (map f (first_of_each self)) → In j (map f self)
    unfolding first_of_each
    keys-first j [] h = h
    keys-first j (item ∷ self) (inl e) = inl e
    keys-first j (item ∷ self) (inr h) =
        inr (keys-first j self (without-keys (f item) j (first_of_each self) h).1)

    -- If the test of two keys is their equality: `dedupeBy` keeps of every key the first item, in
    -- their order, so its result has every key of the array exactly once.
    pub dedupe_by-keys :
        (self : List A) (j : K)
        → (dedupe_by same self f ≡ first_of_each self)
          × IsDistinct (map f (dedupe_by same self f))
          × (In j (map f (dedupe_by same self f)) ↔ In j (map f self))
    dedupe_by-keys self j =
        rw (dedupe_by-eq-first_of_each self)
          (refl, first-IsDistinct self, (keys-first j self, first-keys j self))
