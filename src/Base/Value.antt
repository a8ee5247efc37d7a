-- ===== src/Base/Value.antt =====
-- The values that a JSON or a TOML document is read into.
use Prim.Native.String.{String}
use mathlib.Core.Bool.{Bool, false}
use mathlib.Core.Option.{Option, none, some}
use mathlib.Core.List.{List, [], ◌∷◌}
use text.Mathlib.Text.{◌==◌}
use agentic_sdlc.Base.Int.{ℤ, pos}
use agentic_sdlc.Base.Tests.{if◌then◌else◌, nat_eq}

mutual
  -- `other` is a value of another type, with the two things that the code can tell of it: whether it
  -- equals 1 and whether it is true.
  pub data Value : Type 0 where
    null : Value
    string : String → Value
    int : ℤ → Value
    flag : Bool → Value
    array : Values → Value
    table : Members → Value
    other : (is_one : Bool) → (truth : Bool) → Value

  pub data Values : Type 0 where
    nil : Values
    cons : Value → Values → Values

  pub data Members : Type 0 where
    end : Members
    member_of : String → Value → Members → Members

-- document.get(key)
unfoldable pub get : String → Members → Option Value
get key end = none
get key (member_of k v rest) = if k == key then some v else get key rest

abbrev pub elements : List Value → Values
elements [] = nil
elements (v ∷ vs) = cons v (elements vs)

-- the value equals 1
abbrev pub is_one : Option Value → Bool
is_one (some (int (pos n))) = nat_eq n 1
is_one (some (flag b)) = b
is_one (some (other one truth)) = one
is_one _ = false

-- the members of an object, from its items
abbrev pub members_of : List (String × Value) → Members
members_of [] = end
members_of ((k, v) ∷ items) = member_of k v (members_of items)
