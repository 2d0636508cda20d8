-- ===== src/Parsers/Xml.antt =====
-- XML elements as `ElementTree` gives them: a tag with its namespace, a text and the children.
use Prim.Native.String.{String}
use geo_hazard.Base.{Option, none, some, List, [], ◌∷◌, ◌++◌, str_eq, if◌then◌else◌}
use geo_hazard.Base.Query.{select_where, first_where}
use mathlib.Core.Option

mutual
  pub data Element : Type 0 where
    element : String → String → Children → Element

  pub data Children : Type 0 where
    no_child : Children
    child : Element → Children → Children

abbrev pub tag : Element → String
tag (element t s es) = t

-- The text, which is empty where there is none.
abbrev pub text_of : Element → String
text_of (element t s es) = s

abbrev list_of : Children → List Element
list_of no_child = []
list_of (child e es) = e ∷ list_of es

abbrev pub children : Element → List Element
children (element t s es) = list_of es

unfoldable pub findall : String → Element → List Element
findall name e = select_where (λ c. str_eq (tag c) name) (children e)

unfoldable pub find : String → Element → Option Element
find name e = first_where (λ c. str_eq (tag c) name) (children e)

unfoldable pub findtext : String → Element → Option String
unfolding find
findtext name e = Option.map text_of (find name e)

-- findall("./a/b")
unfoldable pub findall_in : String → List Element → List Element
findall_in name [] = []
findall_in name (e ∷ es) = findall name e ++ findall_in name es

-- a text that is there and not empty
abbrev pub or_none : Option String → Option String
or_none none = none
or_none (some s) = if str_eq s "" then none else some s
