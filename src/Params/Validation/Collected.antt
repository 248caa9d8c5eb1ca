-- ===== src/Params/Validation/Collected.antt =====
-- What is collected of the files that are documents.
use infinity_autopilot.Prelude.{
  ◌≡◌, refl, ap, ◌∙◌, List, [], ◌∷◌, map, Option, none, some, Bool, true, false, if◌then◌else◌,
}
use infinity_autopilot.Text.{Text, codes, same_text}
use infinity_autopilot.Params.Yaml.{Yaml, YamlDict, Python, items_of, elements_of, find, get_key}
use infinity_autopilot.Params.Collect.{Param, full_name, param_entry, collect_params}
use infinity_autopilot.Params.Validation.Described.{
  concat_map, params_of_definition, params_of_group, params_of_file, collect_params-described,
}
use infinity_autopilot.Params.Validation.Documents.{
  Definition, Group, Document, field, optional, description_yaml, definition_fields,
  definition_yaml, definitions_dict, group_yaml, groups_list, document_yaml, given, short_of,
  param_of, flat_map, params_of,
}

find-field :
    (key : Text) (default : Yaml) (k : Text) (v : Option Yaml) (d : YamlDict)
    → find key default (items_of (field k v d)) ≡ (
        if same_text k key
        then given v (find key default (items_of d))
        else find key default (items_of d))
find-field key default k none d = either_way (same_text k key) (find key default (items_of d))
  where
    either_way : {A : Type 0} (b : Bool) (x : A) → x ≡ (if b then x else x)
    either_way true x = refl
    either_way false x = refl
find-field key default k (some v) d = refl

items_of-definitions_dict :
    (ds : List Definition)
    → items_of (definitions_dict ds) ≡ map (λ (d : Definition). (d.name, definition_yaml d)) ds
items_of-definitions_dict [] = refl
items_of-definitions_dict (d ∷ ds) =
    ap (λ r. (d.name, definition_yaml d) ∷ r) (items_of-definitions_dict ds)

elements_of-groups_list : (gs : List Group) → elements_of (groups_list gs) ≡ map group_yaml gs
elements_of-groups_list [] = refl
elements_of-groups_list (g ∷ gs) = ap (λ r. group_yaml g ∷ r) (elements_of-groups_list gs)

concat_map-map :
    {A B C : Type 0} (f : B → Option (List C)) (g : A → B) (h : A → List C)
    → ((x : A) → f (g x) ≡ some (h x))
    → (xs : List A) → concat_map f (map g xs) ≡ some (flat_map h xs)
concat_map-map f g h e [] = refl
concat_map-map f g h e (x ∷ xs) = rw (e x, concat_map-map f g h e xs) refl

flat_map-one : {A B : Type 0} (f : A → B) (xs : List A) → flat_map (λ x. f x ∷ []) xs ≡ map f xs
flat_map-one f [] = refl
flat_map-one f (x ∷ xs) = ap (λ r. f x ∷ r) (flat_map-one f xs)

module _ (d : Definition) (x : Yaml) where
  find-description :
      find (codes "description") x (items_of (definition_fields d))
      ≡ given (optional description_yaml d.description) x
  find-description = simp find-field refl

  find-type : find (codes "type") x (items_of (definition_fields d)) ≡ given d.type x
  find-type = simp find-field refl

  find-default : find (codes "default") x (items_of (definition_fields d)) ≡ given d.default x
  find-default = simp find-field refl

  find-min : find (codes "min") x (items_of (definition_fields d)) ≡ given d.min x
  find-min = simp find-field refl

  find-max : find (codes "max") x (items_of (definition_fields d)) ≡ given d.max x
  find-max = simp find-field refl

get_key-short :
    (o : Option (Option Yaml × Option Yaml))
    → get_key
        (codes "short")
        (Yaml.text [])
        (given (optional description_yaml o) (Yaml.dict YamlDict.empty))
      ≡ some (short_of o)
get_key-short none = refl
get_key-short (some (long, short)) = ap some (simp find-field refl)

module _ (py : Python) where
  definition-param_of :
      (module_name : Text) (d : Definition)
      → params_of_definition py (Yaml.text module_name) (d.name, definition_yaml d)
        ≡ some (param_of py module_name d ∷ [])
  unfolding param_entry full_name
  definition-param_of module_name d =
      rw
        (
          find-description d (Yaml.dict YamlDict.empty),
          find-type d (Yaml.text (codes "float")),
          find-default d (Yaml.number (codes "0")),
          find-min d (Yaml.number (codes "0")),
          find-max d (Yaml.number (codes "0")),
          get_key-short d.description,
        )
        refl

  abbrev params_of_definitions : Text → List Definition → List Param
  params_of_definitions module_name ds = map (param_of py module_name) ds

  definitions-params_of :
      (module_name : Text) (ds : List Definition)
      → concat_map
          (params_of_definition py (Yaml.text module_name))
          (items_of (definitions_dict ds))
        ≡ some (params_of_definitions module_name ds)
  definitions-params_of module_name ds =
      ap (concat_map (params_of_definition py (Yaml.text module_name)))
        (items_of-definitions_dict ds)
      ∙ concat_map-map (params_of_definition py (Yaml.text module_name))
          (λ (d : Definition). (d.name, definition_yaml d)) (λ d. param_of py module_name d ∷ [])
          (definition-param_of module_name) ds
      ∙ ap some (flat_map-one (param_of py module_name) ds)

  group-params_of :
      (module_name : Text) (g : Group)
      → params_of_group py (Yaml.text module_name) (group_yaml g)
        ≡ some (params_of_definitions module_name (given g.definitions []))
  group-params_of module_name g = by_fields g.title g.definitions
    where
      by_fields :
          (title : Option Yaml) (definitions : Option (List Definition))
          → params_of_group py
              (Yaml.text module_name)
              (group_yaml (record { title = title; definitions = definitions }))
            ≡ some (params_of_definitions module_name (given definitions []))
      by_fields none none = refl
      by_fields (some t) none = refl
      by_fields none (some ds) = definitions-params_of module_name ds
      by_fields (some t) (some ds) = definitions-params_of module_name ds

  groups-params_of :
      (module_name : Text) (gs : List Group)
      → concat_map (params_of_group py (Yaml.text module_name)) (elements_of (groups_list gs))
        ≡ some (flat_map (λ g. params_of_definitions module_name (given g.definitions [])) gs)
  groups-params_of module_name gs =
      ap (concat_map (params_of_group py (Yaml.text module_name))) (elements_of-groups_list gs)
      ∙ concat_map-map (params_of_group py (Yaml.text module_name)) group_yaml _
          (group-params_of module_name) gs

  file-params_of :
      (m : Document) → params_of_file py (some (document_yaml m)) ≡ some (params_of py m)
  file-params_of m = by_fields m.module_name m.groups
    where
      by_fields :
          (module_name : Option Text) (groups : Option (List Group))
          → params_of_file py
              (some (document_yaml (record { module_name = module_name; groups = groups })))
            ≡ some (params_of py (record { module_name = module_name; groups = groups }))
      by_fields none none = refl
      by_fields (some t) none = refl
      by_fields none (some gs) = groups-params_of (codes "unknown") gs
      by_fields (some t) (some gs) = groups-params_of t gs

  -- Of files that hold at most the keys "module_name" and "parameters", the latter a list of groups
  -- with at most the keys "group" and "definitions", the definitions by name with at most the keys
  -- "description" (with at most the keys "long" and "short"), "type", "default", "min" and "max",
  -- every one of which may be missing but all in this order, collecting gives one parameter for each definition, in order:
  -- the module's name in upper case, or of "unknown", with "_" and the definition's name, the short
  -- description or the empty text, the type or "float", and the default, the least and the largest
  -- value, or 0 for each.
  pub collect_params-document_yaml :
      (ms : List Document)
      → collect_params py (map (λ m. some (document_yaml m)) ms) ≡ some (flat_map (params_of py) ms)
  collect_params-document_yaml ms =
      collect_params-described py (map (λ m. some (document_yaml m)) ms)
      ∙ concat_map-map (params_of_file py) (λ m. some (document_yaml m)) (params_of py)
          file-params_of ms
