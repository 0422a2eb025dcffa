-- ===== src/Toolkit.antt =====
-- The toolkit package: web/frontend/packages/toolkit. `data/index.ts` (any, all), `function.ts`
-- (pipe, complement) and `math.ts` (clamp) are in this file; its children hold the helpers on
-- arrays and maps and the debounced function. Fields of `args` and `fns` are read in place.
pub mod Unrolled
pub mod Arrays
pub mod Dedupe
pub mod Maps
pub mod Timer
pub mod Debounced
pub mod Refinement
mod Examples
use touhou_cloud_music_thcdb.Common.{
  ℕ, Bool, true, false, not, ◌&&◌, ◌||◌, List, [], ◌∷◌, min, max, if◌then◌else◌,
}

-- The `default` case of `any`.
unfoldable pub any_loop : List Bool → Bool
any_loop [] = false
any_loop (arg ∷ args) = if arg then true else any_loop args

unfoldable pub any : List Bool → Bool
any [] = false
any (a ∷ []) = a
any (a ∷ b ∷ []) = a || b
any (a ∷ b ∷ c ∷ []) = a || b || c
any (a ∷ b ∷ c ∷ d ∷ []) = a || b || c || d
any (a ∷ b ∷ c ∷ d ∷ e ∷ []) = a || b || c || d || e
any (a ∷ b ∷ c ∷ d ∷ e ∷ f ∷ []) = a || b || c || d || e || f
any (a ∷ b ∷ c ∷ d ∷ e ∷ f ∷ g ∷ args) = any_loop (a ∷ b ∷ c ∷ d ∷ e ∷ f ∷ g ∷ args)

-- The `default` case of `all`.
unfoldable pub all_loop : List Bool → Bool
all_loop [] = true
all_loop (arg ∷ args) = if not arg then false else all_loop args

unfoldable pub all : List Bool → Bool
all [] = true
all (a ∷ []) = a
all (a ∷ b ∷ []) = a && b
all (a ∷ b ∷ c ∷ []) = a && b && c
all (a ∷ b ∷ c ∷ d ∷ []) = a && b && c && d
all (a ∷ b ∷ c ∷ d ∷ e ∷ []) = a && b && c && d && e
all (a ∷ b ∷ c ∷ d ∷ e ∷ f ∷ []) = a && b && c && d && e && f
all (a ∷ b ∷ c ∷ d ∷ e ∷ f ∷ g ∷ args) = all_loop (a ∷ b ∷ c ∷ d ∷ e ∷ f ∷ g ∷ args)

module _ {ℓ} {A : Type ℓ} where
  -- The `default` case of `pipe`; values of the type `unknown` are those of A.
  unfoldable pub pipe_loop : A → List (A → A) → A
  pipe_loop res [] = res
  pipe_loop res (fn ∷ fns) = pipe_loop (fn res) fns

  unfoldable pub pipe : A → List (A → A) → A
  pipe x [] = x
  pipe x (f0 ∷ []) = f0 x
  pipe x (f0 ∷ f1 ∷ []) = f1 (f0 x)
  pipe x (f0 ∷ f1 ∷ f2 ∷ []) = f2 (f1 (f0 x))
  pipe x (f0 ∷ f1 ∷ f2 ∷ f3 ∷ []) = f3 (f2 (f1 (f0 x)))
  pipe x (f0 ∷ f1 ∷ f2 ∷ f3 ∷ f4 ∷ []) = f4 (f3 (f2 (f1 (f0 x))))
  pipe x (f0 ∷ f1 ∷ f2 ∷ f3 ∷ f4 ∷ f5 ∷ []) = f5 (f4 (f3 (f2 (f1 (f0 x)))))
  pipe x (f0 ∷ f1 ∷ f2 ∷ f3 ∷ f4 ∷ f5 ∷ f6 ∷ []) = f6 (f5 (f4 (f3 (f2 (f1 (f0 x))))))
  pipe x (f0 ∷ f1 ∷ f2 ∷ f3 ∷ f4 ∷ f5 ∷ f6 ∷ f7 ∷ []) = f7 (f6 (f5 (f4 (f3 (f2 (f1 (f0 x)))))))
  pipe x (f0 ∷ f1 ∷ f2 ∷ f3 ∷ f4 ∷ f5 ∷ f6 ∷ f7 ∷ f8 ∷ []) =
      f8 (f7 (f6 (f5 (f4 (f3 (f2 (f1 (f0 x))))))))
  pipe x (f0 ∷ f1 ∷ f2 ∷ f3 ∷ f4 ∷ f5 ∷ f6 ∷ f7 ∷ f8 ∷ f9 ∷ []) =
      f9 (f8 (f7 (f6 (f5 (f4 (f3 (f2 (f1 (f0 x)))))))))
  pipe x (f0 ∷ f1 ∷ f2 ∷ f3 ∷ f4 ∷ f5 ∷ f6 ∷ f7 ∷ f8 ∷ f9 ∷ f10 ∷ fns) =
      pipe_loop x (f0 ∷ f1 ∷ f2 ∷ f3 ∷ f4 ∷ f5 ∷ f6 ∷ f7 ∷ f8 ∷ f9 ∷ f10 ∷ fns)

  unfoldable pub complement : (A → Bool) → A → Bool
  complement f x = not (f x)

-- With all three arguments; `Math.min` and `Math.max` on numbers that are not NaN.
unfoldable pub clamp : ℕ → ℕ → ℕ → ℕ
clamp lower upper value = min (max value lower) upper
