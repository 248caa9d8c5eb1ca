-- ===== src/Ekf/Validation/Script.antt =====
-- Which code the derivation's script generates.
use infinity_autopilot.Prelude.{
  ℕ, ◌≡◌, refl, ap, ◌∙◌, List, [], ◌∷◌, map, Option, none, some, true, false, ◌||◌, ◌==◌,
  if◌then◌else◌, Bool-cases, inl, inr, arith,
}
use infinity_autopilot.Text.{
  Text, codes, concat, same_text, onto_first, newline_before, lines, universal_newlines, file_lines,
}
use infinity_autopilot.Text.Laws.{same_text→≡}
use infinity_autopilot.Ekf.Script.{
  Function, ScriptCall, generate_cpp_function, generate_python_function, generate_state_header,
  predict_covariance, compute_gps_pos_innov_var_and_h, compute_gps_vel_innov_var_and_h,
  compute_mag_innov_var_and_h, compute_baro_innov_var_and_h, compute_lidar_innov_var_and_h,
  generate_cpp, generate_py, run_script, rewrite,
}

abbrev pub all_functions : List Function
all_functions =
    predict_covariance ∷ compute_gps_pos_innov_var_and_h ∷ compute_gps_vel_innov_var_and_h
    ∷ compute_mag_innov_var_and_h ∷ compute_baro_innov_var_and_h ∷ compute_lidar_innov_var_and_h
    ∷ []

-- The rows of the measurement's Jacobian, by name.
abbrev pub row_names : Function → List Text
row_names compute_baro_innov_var_and_h = codes "H" ∷ []
row_names compute_lidar_innov_var_and_h = codes "H" ∷ []
row_names _ = codes "Hx" ∷ codes "Hy" ∷ codes "Hz" ∷ []

-- The names of a function's results.
abbrev pub result_names : Function → Option (List Text)
result_names predict_covariance = none
result_names f = some (codes "innov" ∷ codes "innov_var" ∷ row_names f)

abbrev pub described : Function → Function × Option (List Text)
described f = (f, result_names f)

-- What is generated in C++, and in Python.
abbrev pub in_cpp : List ScriptCall → List (Function × Option (List Text))
in_cpp [] = []
in_cpp (generate_cpp_function f names ∷ cs) = (f, names) ∷ in_cpp cs
in_cpp (generate_python_function f names ∷ cs) = in_cpp cs
in_cpp (generate_state_header state index ∷ cs) = in_cpp cs

abbrev pub in_python : List ScriptCall → List (Function × Option (List Text))
in_python [] = []
in_python (generate_cpp_function f names ∷ cs) = in_python cs
in_python (generate_python_function f names ∷ cs) = (f, names) ∷ in_python cs
in_python (generate_state_header state index ∷ cs) = in_python cs

-- A text that is one of two is compared as that one.
compared : (s t u : Text) → same_text s t ≡ true → same_text s u ≡ same_text t u
compared s t u h = ap (λ r. same_text r u) (same_text→≡ s t h)

-- The script generates C++ for "cpp" and "both", Python for "py" and "both", each of the six
-- functions once with the names of its results, and nothing in a language for any other text.
pub run_script-described :
    (lang : Text)
    → (in_cpp (run_script lang) ≡ (
        if same_text lang (codes "cpp") || same_text lang (codes "both")
        then map described all_functions
        else []))
      × (in_python (run_script lang) ≡ (
          if same_text lang (codes "py") || same_text lang (codes "both")
          then map described all_functions
          else []))
unfolding run_script generate_cpp generate_py
run_script-described lang = elim (Bool-cases (same_text lang (codes "cpp"))) [
  | inl cpp ↦
      rw
        (
          cpp,
          compared lang (codes "cpp") (codes "py") cpp,
          compared lang (codes "cpp") (codes "both") cpp,
        )
        (refl, refl)
  | inr not-cpp ↦ elim (Bool-cases (same_text lang (codes "py"))) [
    | inl py ↦ rw (not-cpp, py, compared lang (codes "py") (codes "both") py) (refl, refl)
    | inr not-py ↦ elim (Bool-cases (same_text lang (codes "both"))) [
      | inl both ↦ rw (not-cpp, not-py, both) (refl, refl)
      | inr neither ↦ rw (not-cpp, not-py, neither) (refl, refl)
    ]
  ]
]

concat-onto_first : (c : ℕ) (ls : List Text) → concat (onto_first c ls) ≡ c ∷ concat ls
concat-onto_first c [] = refl
concat-onto_first c (l ∷ ls) = refl

concat-lines : (s : Text) → concat (lines s) ≡ s
concat-lines [] = refl
concat-lines (c ∷ s) = elim (Bool-cases (c == 10)) [
  | inl e ↦ rw e (ap (λ t. c ∷ t) (concat-lines s))
  | inr e ↦ rw e (concat-onto_first c (lines s) ∙ ap (λ t. c ∷ t) (concat-lines s))
]

rewrite-universal_newlines : (content : Text) → rewrite content ≡ universal_newlines content
unfolding rewrite
rewrite-universal_newlines content = concat-lines (universal_newlines content)

-- No carriage return.
abbrev pub NoReturn : Text → Type 0
NoReturn [] = Unit
NoReturn (c ∷ s) = ((c == 13) ≡ false) × NoReturn s

-- The text without its line breaks.
abbrev pub unbroken : Text → Text
unbroken [] = []
unbroken (c ∷ s) = let rest = unbroken s in if c == 10 || c == 13 then rest else c ∷ rest

NoReturn-newline_before : (s rest : Text) → NoReturn rest → NoReturn (newline_before s rest)
NoReturn-newline_before [] rest h = (refl, h)
NoReturn-newline_before (d ∷ s) rest h = elim (Bool-cases (d == 10)) [
  | inl e ↦ rw e h
  | inr e ↦ rw e (refl, h)
]

universal_newlines-NoReturn : (s : Text) → NoReturn (universal_newlines s)
universal_newlines-NoReturn [] = tt
universal_newlines-NoReturn (c ∷ s) = elim (Bool-cases (c == 13)) [
  | inl e ↦ rw e (NoReturn-newline_before s _ (universal_newlines-NoReturn s))
  | inr e ↦ rw e (e, universal_newlines-NoReturn s)
]

unbroken-newline_before : (s rest : Text) → unbroken (newline_before s rest) ≡ unbroken rest
unbroken-newline_before [] rest = refl
unbroken-newline_before (d ∷ s) rest = elim (Bool-cases (d == 10)) [
  | inl e ↦ rw e refl
  | inr e ↦ rw e refl
]

unbroken-universal_newlines : (s : Text) → unbroken (universal_newlines s) ≡ unbroken s
unbroken-universal_newlines [] = refl
unbroken-universal_newlines (c ∷ s) = elim (Bool-cases (c == 13)) [
  | inl e ↦ rw e (
      unbroken-newline_before s (universal_newlines s)
      ∙ unbroken-universal_newlines s
      ∙ returned c (unbroken s) e)
  | inr e ↦ rw e (
      ap (λ t. if c == 10 || c == 13 then t else c ∷ t) (unbroken-universal_newlines s)
      ∙ kept c (unbroken s) e)
]
  where
    returned : (c : ℕ) (t : Text) → (c == 13) ≡ true → t ≡ (if c == 10 || true then t else c ∷ t)
    returned c t e = ground arith

    kept :
        (c : ℕ) (t : Text)
        → (c == 13) ≡ false
        → (if c == 10 || c == 13 then t else c ∷ t) ≡ (if c == 10 || false then t else c ∷ t)
    kept c t e = rw e refl

-- Once no carriage return is left, universal newlines change nothing.
NoReturn-universal_newlines : (s : Text) → NoReturn s → universal_newlines s ≡ s
NoReturn-universal_newlines [] h = refl
NoReturn-universal_newlines (c ∷ s) h = rw h.0 (ap (λ t. c ∷ t) (NoReturn-universal_newlines s h.1))

-- Printing the lines of the generated C++ file again changes only its line breaks: no carriage
-- return is left, the text between the line breaks is the same, and the file that is read again has
-- the same lines. In particular the namespace is not added to it.
pub rewrite-file_lines :
    (content : Text)
    → NoReturn (rewrite content)
      × (unbroken (rewrite content) ≡ unbroken content)
      × (file_lines (rewrite content) ≡ file_lines content)
rewrite-file_lines content =
    let e = rewrite-universal_newlines content in
    let h = universal_newlines-NoReturn content in
    (
      rw e h,
      rw e (unbroken-universal_newlines content),
      rw e (ap lines (NoReturn-universal_newlines (universal_newlines content) h)),
    )
