-- ===== src/Common/Json.antt =====
-- JSON values, as `JSON.parse` returns them. A number is a natural number: the program writes no
-- other into the columns and payloads that are modelled.
use Prim.Native.Nat.{ℕ}
use Prim.Native.String.{String}
use mathlib.Core.Bool.{Bool}
use mathlib.Core.Option.{Option, none, some}
use ralph_autopilot.Common.Tests.{◌===◌, if◌then◌else◌}

mutual
  pub data Json : Type 0 where
    null : Json
    bool : Bool → Json
    num : ℕ → Json
    str : String → Json
    arr : Items → Json
    obj : Members → Json

  pub data Items : Type 0 where
    nil : Items
    item : Json → Items → Items

  pub data Members : Type 0 where
    end : Members
    member : String → Json → Members → Members

-- `o[key]`, where `none` is `undefined`. A duplicate key does not arise: its writers are literals.
unfoldable pub lookup : String → Members → Option Json
lookup k end = none
lookup k (member j v ms) = let rest = lookup k ms in if j === k then some v else rest

-- `typeof v === "string"`, with the string.
abbrev pub as_string : Option Json → Option String
as_string (some (str s)) = some s
as_string _ = none

-- `typeof v === "number" && Number.isFinite(v)`, with the number.
abbrev pub as_number : Option Json → Option ℕ
as_number (some (num n)) = some n
as_number _ = none
