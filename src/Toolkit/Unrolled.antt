-- ===== src/Toolkit/Unrolled.antt =====
-- The unrolled cases of `any`, `all` and `pipe` against their loops.
use touhou_cloud_music_thcdb.Common.{
  ◌≡◌, refl, ◌↔◌, inl, inr, Bool, true, false, not, List, [], ◌∷◌, map, In, arith,
}
use touhou_cloud_music_thcdb.Toolkit.{any, any_loop, all, all_loop, pipe, pipe_loop, complement}

any-eq-loop : (args : List Bool) → any args ≡ any_loop args
unfolding any any_loop
any-eq-loop [] = refl
any-eq-loop (a ∷ []) = ground arith
any-eq-loop (a ∷ b ∷ []) = ground arith
any-eq-loop (a ∷ b ∷ c ∷ []) = ground arith
any-eq-loop (a ∷ b ∷ c ∷ d ∷ []) = ground arith
any-eq-loop (a ∷ b ∷ c ∷ d ∷ e ∷ []) = ground arith
any-eq-loop (a ∷ b ∷ c ∷ d ∷ e ∷ f ∷ []) = ground arith
any-eq-loop (a ∷ b ∷ c ∷ d ∷ e ∷ f ∷ g ∷ args) = refl

all-eq-loop : (args : List Bool) → all args ≡ all_loop args
unfolding all all_loop
all-eq-loop [] = refl
all-eq-loop (a ∷ []) = ground arith
all-eq-loop (a ∷ b ∷ []) = ground arith
all-eq-loop (a ∷ b ∷ c ∷ []) = ground arith
all-eq-loop (a ∷ b ∷ c ∷ d ∷ []) = ground arith
all-eq-loop (a ∷ b ∷ c ∷ d ∷ e ∷ []) = ground arith
all-eq-loop (a ∷ b ∷ c ∷ d ∷ e ∷ f ∷ []) = ground arith
all-eq-loop (a ∷ b ∷ c ∷ d ∷ e ∷ f ∷ g ∷ args) = refl

pipe-eq-loop {ℓ} : {A : Type ℓ} (x : A) (fns : List (A → A)) → pipe x fns ≡ pipe_loop x fns
unfolding pipe pipe_loop
pipe-eq-loop x [] = refl
pipe-eq-loop x (f0 ∷ []) = refl
pipe-eq-loop x (f0 ∷ f1 ∷ []) = refl
pipe-eq-loop x (f0 ∷ f1 ∷ f2 ∷ []) = refl
pipe-eq-loop x (f0 ∷ f1 ∷ f2 ∷ f3 ∷ []) = refl
pipe-eq-loop x (f0 ∷ f1 ∷ f2 ∷ f3 ∷ f4 ∷ []) = refl
pipe-eq-loop x (f0 ∷ f1 ∷ f2 ∷ f3 ∷ f4 ∷ f5 ∷ []) = refl
pipe-eq-loop x (f0 ∷ f1 ∷ f2 ∷ f3 ∷ f4 ∷ f5 ∷ f6 ∷ []) = refl
pipe-eq-loop x (f0 ∷ f1 ∷ f2 ∷ f3 ∷ f4 ∷ f5 ∷ f6 ∷ f7 ∷ []) = refl
pipe-eq-loop x (f0 ∷ f1 ∷ f2 ∷ f3 ∷ f4 ∷ f5 ∷ f6 ∷ f7 ∷ f8 ∷ []) = refl
pipe-eq-loop x (f0 ∷ f1 ∷ f2 ∷ f3 ∷ f4 ∷ f5 ∷ f6 ∷ f7 ∷ f8 ∷ f9 ∷ []) = refl
pipe-eq-loop x (f0 ∷ f1 ∷ f2 ∷ f3 ∷ f4 ∷ f5 ∷ f6 ∷ f7 ∷ f8 ∷ f9 ∷ f10 ∷ fns) = refl

-- Every unrolled case of `any`, `all` and `pipe` gives what the loop gives.
pub unrolled-eq-loop {ℓ} :
    {A : Type ℓ} (args : List Bool) (x : A) (fns : List (A → A))
    → (any args ≡ any_loop args) × (all args ≡ all_loop args) × (pipe x fns ≡ pipe_loop x fns)
unrolled-eq-loop args x fns = (any-eq-loop args, all-eq-loop args, pipe-eq-loop x fns)

any_loop-In : (args : List Bool) → any_loop args ≡ true → In true args
unfolding any_loop
any_loop-In [] h = cc
any_loop-In (true ∷ args) h = inl refl
any_loop-In (false ∷ args) h = inr (any_loop-In args h)

In-any_loop : (args : List Bool) → In true args → any_loop args ≡ true
unfolding any_loop
In-any_loop [] h = absurd h
In-any_loop (true ∷ args) h = refl
In-any_loop (false ∷ args) (inl e) = cc
In-any_loop (false ∷ args) (inr h) = In-any_loop args h

de_morgan : (args : List Bool) → all_loop args ≡ not (any_loop (map not args))
unfolding any_loop all_loop
de_morgan [] = refl
de_morgan (true ∷ args) = de_morgan args
de_morgan (false ∷ args) = refl

-- `any` holds exactly when one of the arguments does, and `all` exactly when `any` fails on their
-- negations.
pub any-all :
    (args : List Bool)
    → ((any args ≡ true) ↔ In true args) × (all args ≡ not (any (map (complement (λ b. b)) args)))
unfolding complement
any-all args = rw (any-eq-loop args) (
  (any_loop-In args, In-any_loop args),
  rw (all-eq-loop args, any-eq-loop (map (complement (λ b. b)) args)) (de_morgan args),
)
