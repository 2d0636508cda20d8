-- ===== src/Base/Json.antt =====
-- JSON values, as `json.loads` gives them. `F` is the type of its numbers.
use Prim.Native.String.{String}
use mathlib.Core.Bool.{Bool}
use mathlib.Core.List.{List, [], ◌∷◌}
use mathlib.Core.Option.{Option, none, some}
use geo_hazard.Base.Dict.{Dict, lookup}

mutual
  pub data Json (F : Type 0) : Type 0 where
    null : Json F
    bool : Bool → Json F
    number : F → Json F
    text : String → Json F
    array : Items F → Json F
    object : Fields F → Json F

  pub data Items (F : Type 0) : Type 0 where
    nil : Items F
    cons : Json F → Items F → Items F

  pub data Fields (F : Type 0) : Type 0 where
    end : Fields F
    field : String → Json F → Fields F → Fields F

module _ {F : Type 0} where
  abbrev pub items_of : Items F → List (Json F)
  items_of nil = []
  items_of (cons v vs) = v ∷ items_of vs

  abbrev pub to_items : List (Json F) → Items F
  to_items [] = nil
  to_items (v ∷ vs) = cons v (to_items vs)

  abbrev pub fields_of : Fields F → Dict (Json F)
  fields_of end = []
  fields_of (field k v fs) = (k, v) ∷ fields_of fs

  -- v[k]; `none` where it raises, a KeyError or a TypeError
  unfoldable pub at_key : String → Json F → Option (Json F)
  at_key k (object fs) = lookup k (fields_of fs)
  at_key k _ = none

  -- a text
  abbrev pub as_text : Json F → Option String
  as_text (text s) = some s
  as_text _ = none

  abbrev pub as_items : Json F → Option (List (Json F))
  as_items (array vs) = some (items_of vs)
  as_items _ = none
