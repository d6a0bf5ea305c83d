-- ===== src/Prelude/Json.antt =====
-- Values of type `unknown`, as `JSON.parse` and request bodies give them.
-- Of a number the model keeps whether it is a natural number, negative or not finite; fractional
-- numbers are left out.
use Prim.Native.Nat.{ℕ}
use Prim.Native.String.{String}
use mathlib.Core.Bool.{Bool}
use mathlib.Core.Option.{Option, none, some}
use mathlib.Core.List.{List, [], ◌∷◌}
use text.Mathlib.Text.{◌==◌}
use authlane.Prelude.Tests.{if◌then◌else◌}

pub data Number : Type 0 where
  natural : ℕ → Number
  -- `negative n` is -(n + 1).
  negative : ℕ → Number
  not_finite : Number

mutual
  pub data Json : Type 0 where
    null : Json
    bool : Bool → Json
    num : Number → Json
    str : String → Json
    arr : Items → Json
    obj : Fields → Json

  pub data Items : Type 0 where
    nil : Items
    cons : Json → Items → Items

  pub data Fields : Type 0 where
    end : Fields
    field : String → Json → Fields → Fields

abbrev pub items : Items → List Json
items nil = []
items (cons v vs) = v ∷ items vs

abbrev pub of_list : List Json → Items
of_list [] = nil
of_list (v ∷ vs) = cons v (of_list vs)

-- `value.key`; keys of one object are distinct.
unfoldable pub get : String → Fields → Option Json
get key end = none
get key (field k v fs) = if k == key then some v else get key fs

-- `isRecord(value)` with the value's fields.
abbrev pub as_record : Json → Option Fields
as_record (obj fs) = some fs
as_record null = none
as_record (bool b) = none
as_record (num n) = none
as_record (str s) = none
as_record (arr vs) = none

-- `Array.isArray(value)` with the elements.
abbrev pub as_array : Option Json → Option (List Json)
as_array (some (arr vs)) = some (items vs)
as_array (some null) = none
as_array (some (bool b)) = none
as_array (some (num n)) = none
as_array (some (str s)) = none
as_array (some (obj fs)) = none
as_array none = none

-- `typeof value === 'string'` with the text.
abbrev pub as_string : Option Json → Option String
as_string (some (str s)) = some s
as_string (some null) = none
as_string (some (bool b)) = none
as_string (some (num n)) = none
as_string (some (arr vs)) = none
as_string (some (obj fs)) = none
as_string none = none
