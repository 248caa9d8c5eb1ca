-- ===== src/Params/Validation/Documents.antt =====
-- Files with the structure that the parameters' files have, and what has to be collected of them
-- (scripts/params/generate_params.py).
use infinity_autopilot.Prelude.{List, [], ◌∷◌, ◌++◌, map, Option, none, some}
use infinity_autopilot.Text.{Text, codes}
use infinity_autopilot.Params.Yaml.{Yaml, YamlList, YamlDict, Python}
use infinity_autopilot.Params.Collect.{Param}

-- A definition: its key, and what is given of the rest.
pub record Definition : Type 0 where
  pub name : Text
  pub description : Option (Option Yaml × Option Yaml)
  pub type : Option Yaml
  pub default : Option Yaml
  pub min : Option Yaml
  pub max : Option Yaml

-- A group's title and its definitions.
pub record Group : Type 0 where
  pub title : Option Yaml
  pub definitions : Option (List Definition)

pub record Document : Type 0 where
  pub module_name : Option Text
  pub groups : Option (List Group)

-- A key with what is given for it, in front of others.
abbrev pub field : Text → Option Yaml → YamlDict → YamlDict
field key none d = d
field key (some v) d = YamlDict.entry key v d

abbrev pub optional : {A : Type 0} → (A → Yaml) → Option A → Option Yaml
optional yaml none = none
optional yaml (some a) = some (yaml a)

-- The long text and the short one.
abbrev pub description_yaml : Option Yaml × Option Yaml → Yaml
description_yaml (long, short) =
    Yaml.dict (field (codes "long") long (field (codes "short") short YamlDict.empty))

abbrev pub definition_fields : Definition → YamlDict
definition_fields d = field (codes "description") (optional description_yaml d.description) (
    field (codes "type") d.type (
      field (codes "default") d.default
        (field (codes "min") d.min (field (codes "max") d.max YamlDict.empty))))

abbrev pub definition_yaml : Definition → Yaml
definition_yaml d = Yaml.dict (definition_fields d)

abbrev pub definitions_dict : List Definition → YamlDict
definitions_dict [] = YamlDict.empty
definitions_dict (d ∷ ds) = YamlDict.entry d.name (definition_yaml d) (definitions_dict ds)

abbrev pub group_yaml : Group → Yaml
group_yaml g = Yaml.dict (
    field (codes "group") g.title (
      field (codes "definitions") (optional (λ ds. Yaml.dict (definitions_dict ds)) g.definitions)
        YamlDict.empty))

abbrev pub groups_list : List Group → YamlList
groups_list [] = YamlList.nil
groups_list (g ∷ gs) = YamlList.item (group_yaml g) (groups_list gs)

abbrev pub document_yaml : Document → Yaml
document_yaml m = Yaml.dict (
    field (codes "module_name") (optional Yaml.text m.module_name) (
      field (codes "parameters") (optional (λ gs. Yaml.list (groups_list gs)) m.groups)
        YamlDict.empty))

-- What is given, or else this.
abbrev pub given : {A : Type 0} → Option A → A → A
given none x = x
given (some a) x = a

abbrev pub short_of : Option (Option Yaml × Option Yaml) → Yaml
short_of none = Yaml.text []
short_of (some (long, short)) = given short (Yaml.text [])

abbrev pub param_of : Python → Text → Definition → Param
param_of py module_name d = record {
  name = py.upper module_name ++ codes "_" ++ d.name;
  desc = short_of d.description;
  type = given d.type (Yaml.text (codes "float"));
  default = given d.default (Yaml.number (codes "0"));
  min = given d.min (Yaml.number (codes "0"));
  max = given d.max (Yaml.number (codes "0"));
}

abbrev pub flat_map : {A B : Type 0} → (A → List B) → List A → List B
flat_map f [] = []
flat_map f (x ∷ xs) = f x ++ flat_map f xs

-- The parameters of a file.
abbrev pub params_of : Python → Document → List Param
params_of py m =
    flat_map
      (λ (g : Group).
        map (param_of py (given m.module_name (codes "unknown"))) (given g.definitions []))
      (given m.groups [])
