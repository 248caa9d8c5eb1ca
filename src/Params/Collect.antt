-- ===== src/Params/Collect.antt =====
-- `collect_params` of scripts/params/generate_params.py, on what `yaml.safe_load` gives for the
-- files in sorted order. `none` stands for an exception.
use infinity_autopilot.Prelude.{◌>>=◌, List, [], ◌∷◌, ◌++◌, Option, some, ◌>>=◌}
use infinity_autopilot.Text.{Text, codes}
use infinity_autopilot.Params.Yaml.{
  Yaml, YamlList, YamlDict, Python, items, get_key, iterate, as_text,
}

pub record Param : Type 0 where
  pub name : Text
  pub desc : Yaml
  pub type : Yaml
  pub default : Yaml
  pub min : Yaml
  pub max : Yaml

-- The name in front of the definition's own: `f"{module_name.upper()}_{param_name}"`.
unfoldable pub full_name : Python → Text → Text → Text
full_name py module_name param_name = py.upper module_name ++ codes "_" ++ param_name

unfoldable pub param_entry : Python → Yaml → Text × Yaml → Option Param
param_entry py module_name (param_name, param_def) = do
  module_name ← as_text module_name
  description ← get_key (codes "description") (Yaml.dict YamlDict.empty) param_def
  desc ← get_key (codes "short") (Yaml.text []) description
  type ← get_key (codes "type") (Yaml.text (codes "float")) param_def
  default ← get_key (codes "default") (Yaml.number (codes "0")) param_def
  min ← get_key (codes "min") (Yaml.number (codes "0")) param_def
  max ← get_key (codes "max") (Yaml.number (codes "0")) param_def
  some (record {
    name = full_name py module_name param_name;
    desc = desc;
    type = type;
    default = default;
    min = min;
    max = max;
  })

-- The three loops, which append to `all_params`.
unfoldable pub definitions_loop :
    Python → Yaml → List (Text × Yaml) → List Param → Option (List Param)
definitions_loop py module_name [] all_params = some all_params
definitions_loop py module_name (d ∷ ds) all_params = do
  p ← param_entry py module_name d
  definitions_loop py module_name ds (all_params ++ p ∷ [])

unfoldable pub groups_loop : Python → Yaml → List Yaml → List Param → Option (List Param)
groups_loop py module_name [] all_params = some all_params
groups_loop py module_name (group ∷ groups) all_params = do
  definitions ← get_key (codes "definitions") (Yaml.dict YamlDict.empty) group
  ds ← items definitions
  all_params ← definitions_loop py module_name ds all_params
  groups_loop py module_name groups all_params

-- A file that cannot be opened or parsed is `none`.
unfoldable pub files_loop : Python → List (Option Yaml) → List Param → Option (List Param)
files_loop py [] all_params = some all_params
files_loop py (file ∷ files) all_params = do
  contents ← file
  module_name ← get_key (codes "module_name") (Yaml.text (codes "unknown")) contents
  params ← get_key (codes "parameters") (Yaml.list YamlList.nil) contents
  groups ← iterate params
  all_params ← groups_loop py module_name groups all_params
  files_loop py files all_params

unfoldable pub collect_params : Python → List (Option Yaml) → Option (List Param)
collect_params py files = files_loop py files []
