-- ===== src/Ekf/Validation/Header.antt =====
-- What the generated header of the state says.
use infinity_autopilot.Prelude.{
  ◌≡◌, refl, ap, ◌∙◌, List, [], ◌∷◌, ◌++◌, append_assoc, map, none, some, Bool, true, false,
  if◌then◌else◌,
}
use infinity_autopilot.Text.{Text, codes, concat}
use infinity_autopilot.Text.Decimal.{decimal}
use infinity_autopilot.Ekf.Layout.{Kind, rot3, m31, m21, m11, other, storage_dim, IdxDof}
use infinity_autopilot.Ekf.StateHeader.{
  Field, kind_of, eigen_column, get_cpp_type, member_lines, total_storage_dim, fill_lines,
  struct_text, build_state_struct, build_tangent_state_struct, header_head, header_tail, on_struct,
  generate_state_header,
}
use infinity_autopilot.Ekf.Validation.Segments.{
  is_other, any_other, segments_from, assignment, or-false, fill_lines-assignment,
}

-- Whether the state has no parts, or a part of a type that is not known.
abbrev pub is_refused : List Field → Bool
is_refused [] = true
is_refused (f ∷ fs) = any_other (f ∷ fs)

-- The C++ type of a part.
abbrev pub cpp_type : Text → Kind → Text
cpp_type t rot3 = codes "Eigen::Quaternion<" ++ t ++ codes ">"
cpp_type t m11 = t
cpp_type t kind = eigen_column t (decimal (storage_dim kind))

abbrev pub declaration : Text → Field → Text
declaration t f = codes "\t" ++ cpp_type t (kind_of f) ++ codes " " ++ f.0 ++ codes "{};\n"

get_cpp_type-cpp_type :
    (t : Text) (kind : Kind) → is_other kind ≡ false → get_cpp_type t kind ≡ some (cpp_type t kind)
unfolding get_cpp_type decimal
get_cpp_type-cpp_type t rot3 h = refl
get_cpp_type-cpp_type t m31 h = refl
get_cpp_type-cpp_type t m21 h = refl
get_cpp_type-cpp_type t m11 h = refl
get_cpp_type-cpp_type t (other storage tangent) h = cc h

member_lines-declaration :
    (t : Text) (fs : List Field)
    → any_other fs ≡ false
    → member_lines t fs ≡ some (concat (map (declaration t) fs))
unfolding member_lines
member_lines-declaration t [] h = refl
member_lines-declaration t ((key, kind) ∷ fs) h =
    let (known, rest) = or-false (is_other kind) (any_other fs) h in
    rw (get_cpp_type-cpp_type t kind known, member_lines-declaration t fs rest)
      (simp append_assoc refl)

member_lines-other : (t : Text) (fs : List Field) → any_other fs ≡ true → member_lines t fs ≡ none
unfolding member_lines get_cpp_type
member_lines-other t [] h = cc h
member_lines-other t ((key, rot3) ∷ fs) h = rw (member_lines-other t fs h) refl
member_lines-other t ((key, m31) ∷ fs) h = rw (member_lines-other t fs h) refl
member_lines-other t ((key, m21) ∷ fs) h = rw (member_lines-other t fs h) refl
member_lines-other t ((key, m11) ∷ fs) h = rw (member_lines-other t fs h) refl
member_lines-other t ((key, other storage tangent) ∷ fs) h = refl

-- The structure of a state whose parts are known.
abbrev pub described_struct : Text → List Field → Text
described_struct t state =
    struct_text (eigen_column t (decimal (total_storage_dim state)))
      (concat (map (declaration t) state)) (concat (map assignment (segments_from 0 state)))

no_parts : (t : Text) → build_state_struct t [] ≡ none
unfolding build_state_struct member_lines fill_lines
no_parts t = refl

build_state_struct-described :
    (t : Text) (state : List Field)
    → build_state_struct t state
      ≡ (if is_refused state then none else some (described_struct t state))
unfolding build_state_struct
build_state_struct-described t [] = no_parts t
build_state_struct-described t (f ∷ fs) = by_other (any_other (f ∷ fs)) refl
  where
    by_other :
        (b : Bool)
        → any_other (f ∷ fs) ≡ b
        → build_state_struct t (f ∷ fs) ≡ (if b then none else some (described_struct t (f ∷ fs)))
    by_other true h = rw (member_lines-other t (f ∷ fs) h) refl
    by_other false h =
        rw (member_lines-declaration t (f ∷ fs) h, fill_lines-assignment 0 (f ∷ fs) h) refl

on_struct-if :
    (refused : Bool) (struct tangent : Text)
    → on_struct (if refused then none else some struct) tangent ≡ (
        if refused
        then (header_head, true)
        else (header_head ++ struct ++ codes "\n" ++ tangent ++ header_tail, false))
on_struct-if true struct tangent = refl
on_struct-if false struct tangent = refl

-- The header of a state without parts, or with a part of a type that is not known, ends behind its
-- first lines, and an exception is raised. Every other header is written in full: its structure
-- declares each part with its type, and `Data()` assigns each part to its range.
pub generate_state_header-described :
    (t : Text) (state : List Field) (tangent_state_index : List (Text × IdxDof))
    → generate_state_header state tangent_state_index t ≡ (
        if is_refused state then (header_head, true) else (
          header_head
              ++ described_struct t state
              ++ codes "\n"
              ++ build_tangent_state_struct state tangent_state_index
              ++ header_tail,
          false,
        ))
unfolding generate_state_header
generate_state_header-described t state index =
    ap (λ s. on_struct s (build_tangent_state_struct state index))
      (build_state_struct-described t state)
    ∙ on_struct-if (is_refused state) (described_struct t state) _
