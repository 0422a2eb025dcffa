-- ===== src/Common/Strings.antt =====
-- JavaScript strings: the list of their UTF-16 code units, with the library methods in use.
use Prim.Native.Char.{code}
use Prim.Native.Nat.{ℕ}
use Prim.Native.String.{String}
use mathlib.Core.Path.{◌≡◌, refl}
use mathlib.Core.Logic.{◌↔◌}
use mathlib.Core.Bool.{Bool, true, false, ◌||◌, ◌&&◌}
use mathlib.Core.List.{List, [], ◌∷◌}
use native.Mathlib.Omega.{arith}
use touhou_cloud_music_thcdb.Common.Tests.{leb, ◌==◌, if◌then◌else◌}

abbrev pub Text : Type 0
Text = List ℕ

-- The code units of a literal, all of them in the basic plane.
abbrev pub codes : String → Text
codes String.[] = []
codes (String.◌∷◌ c s) = code c ∷ codes s

-- `===` on strings
unfoldable pub text_eq : Text → Text → Bool
text_eq [] [] = true
text_eq [] (_ ∷ _) = false
text_eq (_ ∷ _) [] = false
text_eq (x ∷ xs) (y ∷ ys) = x == y && text_eq xs ys

pub text_eq_sound : (s t : Text) → text_eq s t ≡ true → s ≡ t
unfolding text_eq
text_eq_sound [] [] h = refl
text_eq_sound [] (_ ∷ _) h = cc
text_eq_sound (_ ∷ _) [] h = cc
text_eq_sound (x ∷ xs) (y ∷ ys) h = ground (arith, text_eq_sound xs ys)

pub text_eq_refl : (s : Text) → text_eq s s ≡ true
unfolding text_eq
text_eq_refl [] = refl
text_eq_refl (x ∷ xs) = ground (arith, text_eq_refl xs)

pub text_eq_iff : (s t : Text) → (text_eq s t ≡ true) ↔ (s ≡ t)
text_eq_iff s t = (text_eq_sound s t, λ e. rw e (text_eq_refl t))

-- `text.length > 0`, also the truth value of a string
abbrev pub nonempty : Text → Bool
nonempty [] = false
nonempty (_ ∷ _) = true

-- WhiteSpace and LineTerminator of ECMAScript
pub is_space : ℕ → Bool
is_space c =
    leb 9 c && leb c 13
    || (c == 32 || c == 160 || c == 5760 || c == 8232 || c == 8233)
    || (leb 8192 c && leb c 8202)
    || (c == 8239 || c == 8287 || c == 12288 || c == 65279)

pub trim_start : Text → Text
trim_start [] = []
trim_start (c ∷ s) = let rest = trim_start s in if is_space c then rest else c ∷ s

-- a trailing run of spaces goes, an inner one stays
pub trim_end : Text → Text
trim_end [] = []
trim_end (c ∷ s) = if is_space c && not_nonempty (trim_end s) then [] else c ∷ trim_end s
  where
    not_nonempty : Text → Bool
    not_nonempty [] = true
    not_nonempty (_ ∷ _) = false

unfoldable pub trim : Text → Text
unfolding is_space trim_start trim_end
trim s = trim_end (trim_start s)
