-- ===== src/Params/Examples.antt =====
-- The parameters' generator on src/modules/imu_manager/module.yaml: tests, and the theorems at
-- concrete inputs.
use infinity_autopilot.Prelude.{
  ◌≡◌, ◌↔◌, ◌+◌, ◌-◌, refl, List, [], ◌∷◌, map, Option, none, some, ◌>>=◌, true, if◌then◌else◌, leb,
  ◌&&◌, get_elem?,
}
use infinity_autopilot.Text.{Text, codes, concat}
use infinity_autopilot.Text.Decimal.{decimal, value}
use infinity_autopilot.Params.Yaml.{Yaml, YamlList, YamlDict, Python}
use infinity_autopilot.Params.Collect.{
  Param, full_name, param_entry, definitions_loop, groups_loop, files_loop, collect_params,
}
use infinity_autopilot.Params.Generate.{
  enum_line, enum_lines, default_str, row, table_rows, generate,
}
use infinity_autopilot.Params.Validation.Documents.{Document, document_yaml}
use infinity_autopilot.Params.Validation.Collected.{collect_params-document_yaml}
use infinity_autopilot.Params.Validation.Table.{any_untyped, generate-raised, enum_lines-table_rows}
use infinity_autopilot.Params.Validation.Names.{full_name_inj}

-- Python's case mappings on ASCII; lists and dictionaries are not printed.
abbrev ascii : Python
ascii = record {
  upper = map (λ c. if leb b'a' c && leb c b'z' then c - 32 else c);
  lower = map (λ c. if leb b'A' c && leb c b'Z' then c + 32 else c);
  show = λ _. [];
}

abbrev definition : Text → Text → YamlDict
definition type default = YamlDict.entry (codes "type") (Yaml.text type) (
    YamlDict.entry (codes "default") (Yaml.number default)
      (YamlDict.entry (codes "max") (Yaml.number (codes "10.0")) YamlDict.empty))

abbrev module_file : Yaml → Yaml
module_file pitch_p = Yaml.dict (
    YamlDict.entry (codes "module_name") (Yaml.text (codes "Imu")) (
      YamlDict.entry (codes "parameters")
        (Yaml.list (
          YamlList.item
            (Yaml.dict (
              YamlDict.entry (codes "definitions")
                (Yaml.dict (
                  YamlDict.entry (codes "ROLL_P")
                    (Yaml.dict (definition (codes "float") (codes "1.5")))
                    (YamlDict.entry (codes "PITCH_P") pitch_p YamlDict.empty)))
                YamlDict.empty))
            YamlList.nil))
        YamlDict.empty))

abbrev files : List (Option Yaml)
files = some (module_file (Yaml.dict (definition (codes "int32") (codes "2")))) ∷ []

abbrev param : Text → Text → Text → Param
param name type default = record {
  name = name;
  desc = Yaml.text [];
  type = Yaml.text type;
  default = Yaml.number default;
  min = Yaml.number (codes "0");
  max = Yaml.number (codes "10.0");
}

abbrev params : List Param
params =
    param (codes "IMU_ROLL_P") (codes "float") (codes "1.5")
    ∷ param (codes "IMU_PITCH_P") (codes "int32") (codes "2")
    ∷ []

files_collected : collect_params ascii files ≡ some params
unfolding full_name param_entry definitions_loop groups_loop files_loop collect_params
files_collected = refl

params_enumerated :
    concat (enum_lines 0 params) ≡ codes "    IMU_ROLL_P = 0,\n    IMU_PITCH_P = 1,\n"
unfolding decimal enum_line enum_lines
params_enumerated = refl

roll_row :
    row ascii (param (codes "IMU_ROLL_P") (codes "float") (codes "1.5"))
    ≡ some (
        codes
          "    { .id = ID::IMU_ROLL_P, .name = \"IMU_ROLL_P\", .type = Metadata::FLOAT, .f_default = 1.5f, .min = 0, .max = 10.0, .desc = \"\" },\n")
unfolding default_str row
roll_row = refl

-- A type that the generator does not know leaves the default's place empty.
unknown_type : default_str ascii (param (codes "IMU_GAIN") (codes "double") (codes "1.5")) ≡ []
unfolding default_str
unknown_type = refl

-- Two parameters of different modules with one name.
same_name :
    full_name ascii (codes "Imu") (codes "ACC_X") ≡ full_name ascii (codes "Imu_Acc") (codes "X")
unfolding full_name
same_name = refl

-- The module's file, a definition with nothing but a long description, and a file without keys.
abbrev documents : List Document
documents =
    record {
      module_name = some (codes "Imu");
      groups = some (
          record {
            title = some (Yaml.text (codes "Estimation"));
            definitions = some (
                record {
                  name = codes "ROLL_P";
                  description =
                      some (none, some (Yaml.text (codes "Guadagno proporzionale rollio")));
                  type = some (Yaml.text (codes "float"));
                  default = some (Yaml.number (codes "1.5"));
                  min = some (Yaml.number (codes "0.1"));
                  max = some (Yaml.number (codes "10.0"));
                }
                ∷ record {
                  name = codes "GAIN";
                  description = some (some (Yaml.text (codes "Guadagno")), none);
                  type = none;
                  default = none;
                  min = none;
                  max = none;
                }
                ∷ []);
          }
          ∷ []);
    }
    ∷ record { module_name = none; groups = none }
    ∷ []

abbrev documented : List Param
documented =
    record {
      name = codes "IMU_ROLL_P";
      desc = Yaml.text (codes "Guadagno proporzionale rollio");
      type = Yaml.text (codes "float");
      default = Yaml.number (codes "1.5");
      min = Yaml.number (codes "0.1");
      max = Yaml.number (codes "10.0");
    }
    ∷ record {
      name = codes "IMU_GAIN";
      desc = Yaml.text [];
      type = Yaml.text (codes "float");
      default = Yaml.number (codes "0");
      min = Yaml.number (codes "0");
      max = Yaml.number (codes "0");
    }
    ∷ []

collect_params-document_yaml_example :
    collect_params ascii (map (λ m. some (document_yaml m)) documents) ≡ some documented
collect_params-document_yaml_example = collect_params-document_yaml ascii documents

enum_lines-table_rows_example :
    (get_elem? (enum_lines 0 params) 1 ≡ (get_elem? params 1 >>= λ p. some (enum_line p.name 1)))
    × (get_elem? (table_rows ascii params).0 1 ≡ (get_elem? params 1 >>= row ascii))
    × (value (decimal 1) ≡ 1)
enum_lines-table_rows_example = enum_lines-table_rows ascii params 1 refl

generate-raised_example :
    (generate ascii (codes "out") (some (module_file Yaml.null) ∷ [])).raised
    ≡ (elim (collect_params ascii (some (module_file Yaml.null) ∷ [])) [
      | none ↦ true
      | some ps ↦ any_untyped ps
    ])
generate-raised_example = generate-raised ascii (codes "out") (some (module_file Yaml.null) ∷ [])

full_name_inj_example :
    (full_name ascii (codes "Imu") (codes "ROLL_P")
      ≡ full_name ascii (codes "EKF") (codes "ROLL_P"))
    ↔ ((ascii.upper (codes "Imu") ≡ ascii.upper (codes "EKF")) × (codes "ROLL_P" ≡ codes "ROLL_P"))
full_name_inj_example =
    full_name_inj ascii (codes "Imu") (codes "EKF") (codes "ROLL_P") (codes "ROLL_P")
      (refl, (refl, (refl, tt))) (refl, (refl, (refl, tt)))
