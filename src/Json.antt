-- ===== src/Json.antt =====
-- Values as `json.loads` gives them, and the built-in functions of Python that the services apply to
-- them. Numbers are those of Float.antt.
use swarm_kill_chain_medium.Prelude.{
  String, Bool, true, false, not, Option, none, some, List, [], ◌∷◌, string_equality, ◌==◌,
}
use swarm_kill_chain_medium.Prelude.Int.{ℤ, pos}
use swarm_kill_chain_medium.Float.{Float, finite}
use swarm_kill_chain_medium.Dict.{Dict}

mutual
  pub data Json : Type 0 where
    null : Json
    bool : Bool → Json
    num : Float → Json
    str : String → Json
    arr : Items → Json
    obj : Fields → Json

  pub data Items : Type 0 where
    nil : Items
    cons : Json → Items → Items

  pub data Fields : Type 0 where
    end : Fields
    field : String → Json → Fields → Fields

unfoldable pub fields_of : Fields → Dict String Json
fields_of end = []
fields_of (field k v rest) = (k, v) ∷ fields_of rest

unfoldable pub to_fields : Dict String Json → Fields
to_fields [] = end
to_fields ((k, v) ∷ d) = field k v (to_fields d)

unfoldable pub items_of : Items → List Json
items_of nil = []
items_of (cons x rest) = x ∷ items_of rest

unfoldable pub to_items : List Json → Items
to_items [] = nil
to_items (x ∷ xs) = cons x (to_items xs)

-- `bool(x)`
unfoldable pub truthy : Json → Bool
truthy null = false
truthy (bool b) = b
truthy (num (finite (pos n))) = not (n == 0)
truthy (num x) = true
truthy (str s) = not (string_equality.equal s "")
truthy (arr nil) = false
truthy (arr (cons x xs)) = true
truthy (obj end) = false
truthy (obj (field k v rest)) = true

-- `x or y`
abbrev pub or_else : Json → Json → Json
or_else x y = elim (truthy x) [ true ↦ x | false ↦ y ]

-- A missing key is `None`: `d.get(k)`.
abbrev pub or_null : Option Json → Json
or_null none = null
or_null (some x) = x

-- `d.get(k, default)`
abbrev pub or_default : Option Json → Json → Json
or_default none d = d
or_default (some x) d = x

-- `isinstance(x, dict)`
abbrev pub as_object : Json → Option (Dict String Json)
as_object (obj fs) = some (fields_of fs)
as_object _ = none

-- `x == "..."` for a value of any type.
abbrev pub is_text : Json → String → Bool
is_text (str s) t = string_equality.equal s t
is_text _ t = false

-- What Python does with values and texts: `str`, `lower` over all of Unicode, and `float` and `int` of a
-- text, with `none` where they raise `ValueError`; `strip`; `sorted`, and the elements of a set in its
-- order, with `none` for `TypeError`.
pub record Python : Type 0 where
  pub str_of : Json → String
  pub lower : String → String
  pub float_of_text : String → Option Float
  pub int_of_text : String → Option ℤ
  pub str_of_int : ℤ → String
  pub str_of_float : Float → String
  pub strip : String → String
  pub sorted : List Json → Option (List Json)
  pub distinct : List Json → Option (List Json)
