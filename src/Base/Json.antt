-- ===== src/Base/Json.antt =====
-- JSON values, as `dict[str, Any]` fields hold them, and Python's `==` on them.
use Prim.Native.Nat.{ℕ, suc}
use Prim.Native.String.{String}
use mathlib.Core.Bool.{Bool, true, false, ◌&&◌}
use mathlib.Core.Option.{Option, none, some}
use text.Mathlib.Text.{◌==◌}
use command_center.Base.Tests.{nat_eq, if◌then◌else◌}

mutual
  pub data Json : Type 0 where
    null : Json
    bool : Bool → Json
    num : ℕ → Json
    str : String → Json
    arr : Items → Json
    obj : Fields → Json

  pub data Items : Type 0 where
    nil : Items
    cons : Json → Items → Items

  pub data Fields : Type 0 where
    end : Fields
    field : String → Json → Fields → Fields

-- A bool is an int in Python: `True == 1`.
abbrev bit : Bool → ℕ
bit true = 1
bit false = 0

-- `k in d and test(d[k])`
has_field : (Json → Bool) → String → Fields → Bool
has_field test k end = false
has_field test k (field j v r) = if j == k then test v else has_field test k r

count_fields : Fields → ℕ
count_fields end = 0
count_fields (field k v r) = suc (count_fields r)

unfoldable mutual
  unfolding has_field count_fields

  pub json_eq : Json → Json → Bool
  json_eq null null = true
  json_eq (bool a) (bool b) = nat_eq (bit a) (bit b)
  json_eq (bool a) (num b) = nat_eq (bit a) b
  json_eq (num a) (bool b) = nat_eq a (bit b)
  json_eq (num a) (num b) = nat_eq a b
  json_eq (str a) (str b) = a == b
  json_eq (arr a) (arr b) = items_eq a b
  json_eq (obj a) (obj b) = nat_eq (count_fields a) (count_fields b) && fields_in a b
  json_eq _ _ = false

  pub items_eq : Items → Items → Bool
  items_eq nil nil = true
  items_eq (cons a as') (cons b bs) = json_eq a b && items_eq as' bs
  items_eq _ _ = false

  -- Every entry of the first object has an equal value in the second.
  pub fields_in : Fields → Fields → Bool
  fields_in end bs = true
  fields_in (field k a r) bs = has_field (json_eq a) k bs && fields_in r bs

-- `d.get(k)` where a missing key reads as `None`, which equals JSON's null.
abbrev pub or_null : Option Json → Json
or_null none = null
or_null (some v) = v
