-- ===== src/Common/Json.antt =====
-- `serde_json::Value`, as far as the code reads and builds it: a number is a `u64`, or the text of any
-- other one.
use Prim.Native.Nat.{ℕ}
use Prim.Native.String.{String}
use mathlib.Core.Bool.{Bool}
use mathlib.Core.Option.{Option, none, some}
use mathlib.Core.List.{List, [], ◌∷◌, map}
use ethui.Common.Tests.{◌==◌, text_Same, if◌then◌else◌}

mutual
  pub data Json : Type 0 where
    null : Json
    bool : Bool → Json
    num : ℕ → Json
    number : String → Json
    str : String → Json
    arr : Items → Json
    obj : Fields → Json

  pub data Items : Type 0 where
    nil : Items
    cons : Json → Items → Items

  pub data Fields : Type 0 where
    end : Fields
    field : String → Json → Fields → Fields

abbrev items_of : List Json → Items
items_of [] = nil
items_of (j ∷ js) = cons j (items_of js)

abbrev fields_of : List (String × Json) → Fields
fields_of [] = end
fields_of ((k, j) ∷ fs) = field k j (fields_of fs)

abbrev pub array : List Json → Json
array js = arr (items_of js)

abbrev pub object : List (String × Json) → Json
object fs = obj (fields_of fs)

abbrev pub strings : List String → Json
strings ts = array (map str ts)

abbrev find_field : Fields → String → Option Json
find_field end k = none
find_field (field j v fs) k = if j == k then some v else find_field fs k

-- `value.get(key)`
abbrev pub get_field : Json → String → Option Json
get_field (obj fs) k = find_field fs k
get_field _ k = none

-- `value[key]`, which is null where there is no such field.
abbrev pub at : Json → String → Json
at j k = elim (get_field j k) [ none ↦ null | some v ↦ v ]

abbrev items_list : Items → List Json
items_list nil = []
items_list (cons j js) = j ∷ items_list js

-- `value.as_array()`, where what is no array has no items.
abbrev pub items : Json → List Json
items (arr js) = items_list js
items _ = []

abbrev pub as_str : Json → Option String
as_str (str t) = some t
as_str _ = none

abbrev pub as_u64 : Json → Option ℕ
as_u64 (num n) = some n
as_u64 _ = none

abbrev pub as_bool : Json → Option Bool
as_bool (bool b) = some b
as_bool _ = none

-- `filter_map(|v| v.as_str())`
abbrev pub texts : List Json → List String
texts [] = []
texts (j ∷ js) = elim (as_str j) [ none ↦ texts js | some t ↦ t ∷ texts js ]
