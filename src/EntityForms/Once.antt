-- ===== src/EntityForms/Once.antt =====
-- Lists in which nothing is related twice, after an item is added, removed or set.
use touhou_cloud_music_thcdb.Common.{
  ℕ, zero, suc, ◌+◌, ◌<◌, ◌≡◌, refl, sym, ap, ◌∙◌, Bool, false, ◌||◌, Option, none, some, List, [],
  ◌∷◌, ◌++◌, ◌==◌, arith,
}
use touhou_cloud_music_thcdb.EntityForms.{splice_out, set_at, exists_from}

abbrev pub has_ref : ℕ → List (Option ℕ) → Bool
has_ref c [] = false
has_ref c (none ∷ refs) = has_ref c refs
has_ref c (some id ∷ refs) = id == c || has_ref c refs

-- Nothing is related twice.
abbrev pub IsOnce : List (Option ℕ) → Type 0
IsOnce [] = Unit
IsOnce (none ∷ refs) = IsOnce refs
IsOnce (some id ∷ refs) = (has_ref id refs ≡ false) × IsOnce refs

-- Not even the entity itself is related.
abbrev pub IsForeign : Option ℕ → List (Option ℕ) → Type 0
IsForeign none refs = Unit
IsForeign (some own) refs = has_ref own refs ≡ false

pub has_ref-append :
    (c : ℕ) (refs : List (Option ℕ)) → has_ref c (refs ++ (none ∷ [])) ≡ has_ref c refs
has_ref-append c [] = refl
has_ref-append c (none ∷ refs) = has_ref-append c refs
has_ref-append c (some id ∷ refs) = ap (λ b. id == c || b) (has_ref-append c refs)

pub has_ref-splice_out :
    (c i : ℕ) (refs : List (Option ℕ))
    → has_ref c refs ≡ false
    → has_ref c (splice_out i refs) ≡ false
unfolding splice_out
has_ref-splice_out c i [] h = h
has_ref-splice_out c zero (none ∷ refs) h = h
has_ref-splice_out c zero (some id ∷ refs) h = ground arith
has_ref-splice_out c (suc i) (none ∷ refs) h = has_ref-splice_out c i refs h
has_ref-splice_out c (suc i) (some id ∷ refs) h = ground (arith, has_ref-splice_out c i refs)

pub has_ref-set_at :
    (c i d : ℕ) (refs : List (Option ℕ))
    → has_ref c refs ≡ false
    → (d == c) ≡ false
    → has_ref c (set_at i (some d) refs) ≡ false
unfolding set_at
has_ref-set_at c i d [] h n = h
has_ref-set_at c zero d (none ∷ refs) h n = ground arith
has_ref-set_at c zero d (some id ∷ refs) h n = ground arith
has_ref-set_at c (suc i) d (none ∷ refs) h n = has_ref-set_at c i d refs h n
has_ref-set_at c (suc i) d (some id ∷ refs) h n = ground (arith, has_ref-set_at c i d refs)

exists_from-past :
    (idx ignore c : ℕ) (refs : List (Option ℕ))
    → ignore < idx
    → exists_from idx ignore c refs ≡ has_ref c refs
unfolding exists_from
exists_from-past idx ignore c [] h = refl
exists_from-past idx ignore c (none ∷ refs) h =
    exists_from-past (suc idx) ignore c refs (omega (arith, h))
exists_from-past idx ignore c (some id ∷ refs) h =
    ground (arith, exists_from-past (suc idx) ignore c refs)

pub append-IsOnce : (refs : List (Option ℕ)) → IsOnce refs → IsOnce (refs ++ (none ∷ []))
append-IsOnce [] h = tt
append-IsOnce (none ∷ refs) h = append-IsOnce refs h
append-IsOnce (some id ∷ refs) (n, h) = (has_ref-append id refs ∙ n, append-IsOnce refs h)

pub splice_out-IsOnce : (i : ℕ) (refs : List (Option ℕ)) → IsOnce refs → IsOnce (splice_out i refs)
unfolding splice_out
splice_out-IsOnce i [] h = h
splice_out-IsOnce zero (none ∷ refs) h = h
splice_out-IsOnce zero (some id ∷ refs) (n, h) = h
splice_out-IsOnce (suc i) (none ∷ refs) h = splice_out-IsOnce i refs h
splice_out-IsOnce (suc i) (some id ∷ refs) (n, h) =
    (has_ref-splice_out id i refs n, splice_out-IsOnce i refs h)

exists_from-rest :
    (idx ignore c id : ℕ) (refs : List (Option ℕ))
    → idx < ignore
    → exists_from idx ignore c (some id ∷ refs) ≡ false
    → ((c == id) ≡ false) × (exists_from (suc idx) ignore c refs ≡ false)
unfolding exists_from
exists_from-rest idx ignore c id refs h e = ground arith

exists_from-here :
    (idx c id : ℕ) (refs : List (Option ℕ))
    → exists_from idx idx c (some id ∷ refs) ≡ false
    → has_ref c refs ≡ false
unfolding exists_from
exists_from-here idx c id refs e = ground (arith, exists_from-past (suc idx) idx c refs)

pub set_at-IsOnce :
    (idx i ignore c : ℕ) (refs : List (Option ℕ))
    → ignore ≡ idx + i
    → exists_from idx ignore c refs ≡ false
    → IsOnce refs
    → IsOnce (set_at i (some c) refs)
unfolding set_at exists_from
set_at-IsOnce idx i ignore c [] p e h = h
set_at-IsOnce idx zero ignore c (none ∷ refs) p e h =
    (sym (exists_from-past (suc idx) ignore c refs (omega (arith, p))) ∙ e, h)
set_at-IsOnce idx zero ignore c (some id ∷ refs) p e (n, h) =
    let here : ignore ≡ idx = omega (arith, p) in
    (
      exists_from-here idx c id refs
          (ap (λ g. exists_from idx g c (some id ∷ refs)) (sym here) ∙ e),
      h,
    )
set_at-IsOnce idx (suc i) ignore c (none ∷ refs) p e h =
    set_at-IsOnce (suc idx) i ignore c refs (omega (arith, p)) e h
set_at-IsOnce idx (suc i) ignore c (some id ∷ refs) p e (n, h) =
    let (other, rest) = exists_from-rest idx ignore c id refs (omega (arith, p)) e in
    (
      has_ref-set_at id i c refs n other,
      set_at-IsOnce (suc idx) i ignore c refs (omega (arith, p)) rest h,
    )
