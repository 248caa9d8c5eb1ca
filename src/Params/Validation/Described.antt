-- ===== src/Params/Validation/Described.antt =====
-- The parameters that are collected, described file by file.
use infinity_autopilot.Prelude.{
  ◌≡◌, refl, ap, sym, fun_ext, ◌∙◌, List, [], ◌∷◌, ◌++◌, append-nil, append_assoc, Option, none,
  some, ◌>>=◌,
}
use infinity_autopilot.Text.{Text, codes}
use infinity_autopilot.Params.Yaml.{Yaml, YamlList, YamlDict, Python, items, get_key, iterate}
use infinity_autopilot.Params.Collect.{
  Param, param_entry, definitions_loop, groups_loop, files_loop, collect_params,
}

-- The results for all elements, one after the other, when there are all.
abbrev pub concat_map : {A B : Type 0} → (A → Option (List B)) → List A → Option (List B)
concat_map f [] = some []
concat_map f (x ∷ xs) = do ys ← f x; zs ← concat_map f xs; some (ys ++ zs)

abbrev pub params_of_definition : Python → Yaml → Text × Yaml → Option (List Param)
params_of_definition py module_name d = do p ← param_entry py module_name d; some (p ∷ [])

abbrev pub params_of_group : Python → Yaml → Yaml → Option (List Param)
params_of_group py module_name group = do
  definitions ← get_key (codes "definitions") (Yaml.dict YamlDict.empty) group
  ds ← items definitions
  concat_map (params_of_definition py module_name) ds

abbrev pub params_of_file : Python → Option Yaml → Option (List Param)
params_of_file py file = do
  contents ← file
  module_name ← get_key (codes "module_name") (Yaml.text (codes "unknown")) contents
  params ← get_key (codes "parameters") (Yaml.list YamlList.nil) contents
  groups ← iterate params
  concat_map (params_of_group py module_name) groups

-- Behind what is already there.
abbrev behind : {B : Type 0} → List B → Option (List B) → Option (List B)
behind acc none = none
behind acc (some ys) = some (acc ++ ys)

-- A loop that appends what each element gives collects the same.
module _ {A B : Type 0} (f : A → Option (List B)) (next : List A → List B → Option (List B)) where
  behind-concat_map :
      (acc : List B) (r s : Option (List B))
      → (behind acc r >>= λ acc. behind acc s)
        ≡ behind acc (r >>= λ ys. s >>= λ zs. some (ys ++ zs))
  behind-concat_map acc none s = refl
  behind-concat_map acc (some ys) none = refl
  behind-concat_map acc (some ys) (some zs) = ap some (append_assoc acc ys zs)

  loop-behind :
      ((acc : List B) → next [] acc ≡ some acc)
      → ((x : A) (xs : List A) (acc : List B)
          → next (x ∷ xs) acc ≡ (behind acc (f x) >>= λ acc. next xs acc))
      → (xs : List A) (acc : List B) → next xs acc ≡ behind acc (concat_map f xs)
  loop-behind hn hc [] acc = hn acc ∙ ap some (sym (append-nil acc))
  loop-behind hn hc (x ∷ xs) acc =
      hc x xs acc
      ∙ ap (λ g. behind acc (f x) >>= g) (fun_ext (λ acc. loop-behind hn hc xs acc))
      ∙ behind-concat_map acc (f x) (concat_map f xs)

-- A step whose result the rest of an element's work and of the loop use.
bind-behind :
    {B C : Type 0} (acc : List B) (next : List B → Option (List B)) (r : Option C)
    (work : C → Option (List B)) (run : C → Option (List B))
    → ((y : C) → run y ≡ (behind acc (work y) >>= next))
    → (r >>= run) ≡ (behind acc (r >>= work) >>= next)
bind-behind acc next none work run h = refl
bind-behind acc next (some y) work run h = h y

module _ (py : Python) where
  definitions_loop-behind :
      (module_name : Yaml) (ds : List (Text × Yaml)) (acc : List Param)
      → definitions_loop py module_name ds acc
        ≡ behind acc (concat_map (params_of_definition py module_name) ds)
  unfolding definitions_loop
  definitions_loop-behind module_name =
      loop-behind (params_of_definition py module_name) (definitions_loop py module_name)
        (λ acc. refl) (λ d ds acc. step ds acc (param_entry py module_name d))
    where
      step :
          (ds : List (Text × Yaml)) (acc : List Param) (r : Option Param)
          → (r >>= λ p. definitions_loop py module_name ds (acc ++ p ∷ [])) ≡ (
              behind acc (r >>= λ p. some (p ∷ [])) >>= λ acc.
              definitions_loop py module_name ds acc)
      step ds acc none = refl
      step ds acc (some p) = refl

  groups_loop-behind :
      (module_name : Yaml) (groups : List Yaml) (acc : List Param)
      → groups_loop py module_name groups acc
        ≡ behind acc (concat_map (params_of_group py module_name) groups)
  unfolding groups_loop
  groups_loop-behind module_name =
      loop-behind (params_of_group py module_name) (groups_loop py module_name) (λ acc. refl)
        (λ group groups acc.
          bind-behind acc (groups_loop py module_name groups)
            (get_key (codes "definitions") (Yaml.dict YamlDict.empty) group) _ _
            (λ definitions.
              bind-behind acc (groups_loop py module_name groups) (items definitions) _ _ (λ ds.
                ap (λ o. o >>= groups_loop py module_name groups)
                  (definitions_loop-behind module_name ds acc))))

  files_loop-behind :
      (files : List (Option Yaml)) (acc : List Param)
      → files_loop py files acc ≡ behind acc (concat_map (params_of_file py) files)
  unfolding files_loop
  files_loop-behind =
      loop-behind (params_of_file py) (files_loop py) (λ acc. refl)
        (λ file files acc. bind-behind acc (files_loop py files) file _ _ (λ contents.
          bind-behind acc (files_loop py files)
            (get_key (codes "module_name") (Yaml.text (codes "unknown")) contents) _ _
            (λ module_name.
              bind-behind acc (files_loop py files)
                (get_key (codes "parameters") (Yaml.list YamlList.nil) contents) _ _
                (λ params. bind-behind acc (files_loop py files) (iterate params) _ _ (λ groups.
                  ap (λ o. o >>= files_loop py files)
                    (groups_loop-behind module_name groups acc))))))

  behind-nil : {B : Type 0} (r : Option (List B)) → behind [] r ≡ r
  behind-nil none = refl
  behind-nil (some ys) = refl

  -- The three loops as one expression.
  pub collect_params-described :
      (files : List (Option Yaml)) → collect_params py files ≡ concat_map (params_of_file py) files
  unfolding collect_params
  collect_params-described files =
      files_loop-behind files [] ∙ behind-nil (concat_map (params_of_file py) files)
