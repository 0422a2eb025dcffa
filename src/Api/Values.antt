-- ===== src/Api/Values.antt =====
-- The values of `JSON.parse`, and what the program asks of them: a member, a truth value.
-- A number is an integer here; the program never computes with one.
use touhou_cloud_music_thcdb.Common.{
  zero, Bool, true, false, Option, none, some, Text, text_eq, nonempty, ℤ, pos, if◌then◌else◌,
}

mutual
  pub data Json : Type 0 where
    null : Json
    bool : Bool → Json
    num : ℤ → Json
    str : Text → Json
    arr : Items → Json
    obj : Fields → Json

  pub data Items : Type 0 where
    nil : Items
    cons : Json → Items → Items

  pub data Fields : Type 0 where
    end : Fields
    entry : Text → Json → Fields → Fields

-- An object of `JSON.parse` holds each key once.
abbrev pub field : Fields → Text → Option Json
field end k = none
field (entry j v fs) k = if text_eq j k then some v else field fs k

-- An own property; `none` is `undefined`, also of a value that is no object.
unfoldable pub prop : Json → Text → Option Json
prop (obj fs) k = field fs k
prop j k = none

-- The value as a condition.
unfoldable pub truthy : Json → Bool
truthy null = false
truthy (bool b) = b
truthy (num (pos zero)) = false
truthy (num z) = true
truthy (str s) = nonempty s
truthy (arr xs) = true
truthy (obj fs) = true
