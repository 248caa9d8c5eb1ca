-- ===== src/Params/Yaml.antt =====
-- The values that `yaml.safe_load` gives, and the operations of Python on them that
-- scripts/params/generate_params.py uses.
use infinity_autopilot.Prelude.{
  List, [], ◌∷◌, map, Option, none, some, Bool, true, false, if◌then◌else◌,
}
use infinity_autopilot.Text.{Text, codes, same_text}

-- A number is kept as Python prints it. The keys of a map are the texts that they print as.
mutual
  pub data Yaml : Type 0 where
    null : Yaml
    bool : Bool → Yaml
    number : Text → Yaml
    text : Text → Yaml
    list : YamlList → Yaml
    dict : YamlDict → Yaml

  pub data YamlList : Type 0 where
    nil : YamlList
    item : Yaml → YamlList → YamlList

  pub data YamlDict : Type 0 where
    empty : YamlDict
    entry : Text → Yaml → YamlDict → YamlDict

-- What the model takes from Python's tables: the case mappings of `str`, and how a list or a
-- dictionary prints.
pub record Python : Type 0 where
  pub upper : Text → Text
  pub lower : Text → Text
  pub show : Yaml → Text

abbrev pub items_of : YamlDict → List (Text × Yaml)
items_of YamlDict.empty = []
items_of (YamlDict.entry k v d) = (k, v) ∷ items_of d

abbrev pub elements_of : YamlList → List Yaml
elements_of YamlList.nil = []
elements_of (YamlList.item x l) = x ∷ elements_of l

abbrev pub find : Text → Yaml → List (Text × Yaml) → Yaml
find key default [] = default
find key default ((k, v) ∷ d) = if same_text k key then v else find key default d

-- `x.items()`. `none` is an `AttributeError`, as in `get_key`.
abbrev pub items : Yaml → Option (List (Text × Yaml))
items Yaml.null = none
items (Yaml.bool _) = none
items (Yaml.number _) = none
items (Yaml.text _) = none
items (Yaml.list _) = none
items (Yaml.dict d) = some (items_of d)

-- `x.get(key, default)`.
abbrev pub get_key : Text → Yaml → Yaml → Option Yaml
get_key key default x = elim (items x) [ none ↦ none | some d ↦ some (find key default d) ]

-- The elements that `for` gives. `none` is a `TypeError`.
abbrev pub iterate : Yaml → Option (List Yaml)
iterate Yaml.null = none
iterate (Yaml.bool _) = none
iterate (Yaml.number _) = none
iterate (Yaml.text s) = some (map (λ c. Yaml.text (c ∷ [])) s)
iterate (Yaml.list l) = some (elements_of l)
iterate (Yaml.dict d) = some (map (λ (k, _). Yaml.text k) (items_of d))

-- The text of a text, where `upper` needs one.
abbrev pub as_text : Yaml → Option Text
as_text Yaml.null = none
as_text (Yaml.bool _) = none
as_text (Yaml.number _) = none
as_text (Yaml.text s) = some s
as_text (Yaml.list _) = none
as_text (Yaml.dict _) = none

-- `str(x)`.
abbrev pub str : Python → Yaml → Text
str py Yaml.null = codes "None"
str py (Yaml.bool true) = codes "True"
str py (Yaml.bool false) = codes "False"
str py (Yaml.number t) = t
str py (Yaml.text s) = s
str py (Yaml.list l) = py.show (Yaml.list l)
str py (Yaml.dict d) = py.show (Yaml.dict d)

-- `x == t` for a text t.
abbrev pub equals_text : Yaml → Text → Bool
equals_text x t = elim (as_text x) [ none ↦ false | some s ↦ same_text s t ]
