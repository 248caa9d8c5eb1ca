-- ===== src/Ekf/Validation/Segments.antt =====
-- The places that the parts of a state get in the vector that `Data()` fills.
use infinity_autopilot.Prelude.{
  ℕ, ◌+◌, ◌≡◌, refl, List, [], ◌∷◌, ◌++◌, append_assoc, map, some, Bool, true, false, ◌||◌,
  if◌then◌else◌, ltb, arith,
}
use infinity_autopilot.Text.{Text, codes, concat}
use infinity_autopilot.Text.Decimal.{decimal}
use infinity_autopilot.Ekf.Layout.{Kind, rot3, m31, m21, m11, other, storage_dim, IdxDof, holders}
use infinity_autopilot.Ekf.StateHeader.{Field, kind_of, total_storage_dim, fill_line, fill_lines}

abbrev pub is_other : Kind → Bool
is_other rot3 = false
is_other m31 = false
is_other m21 = false
is_other m11 = false
is_other (other storage tangent) = true

abbrev pub any_other : List Field → Bool
any_other [] = false
any_other (f ∷ fs) = is_other (kind_of f) || any_other fs

-- A part of the state with its place in the vector.
pub record Segment : Type 0 where
  pub key : Text
  pub kind : Kind
  pub range : IdxDof

-- The parts one behind the other.
abbrev pub segments_from : ℕ → List Field → List Segment
segments_from offset [] = []
segments_from offset ((key, kind) ∷ fs) =
    record { key = key; kind = kind; range = record { idx = offset; dof = storage_dim kind } }
    ∷ segments_from (offset + storage_dim kind) fs

-- The C++ expression of a part's components.
abbrev pub components : Kind → Text → Text
components rot3 key =
    codes " << "
    ++ key
    ++ codes ".x(), "
    ++ key
    ++ codes ".y(), "
    ++ key
    ++ codes ".z(), "
    ++ key
    ++ codes ".w()"
components _ key = codes " = " ++ key

-- The C++ expression of a range of the vector.
abbrev pub target : Kind → IdxDof → Text
target m11 range = codes "state_vec(" ++ decimal range.idx ++ codes ")"
target _ range =
    codes "state_vec.template segment<"
    ++ decimal range.dof
    ++ codes ">("
    ++ decimal range.idx
    ++ codes ")"

-- The assignment of a part to its range.
abbrev pub assignment : Segment → Text
assignment s = codes "\t\t" ++ target s.kind s.range ++ components s.kind s.key ++ codes ";\n"

fill_line-assignment :
    (key : Text) (offset : ℕ) (kind : Kind)
    → is_other kind ≡ false
    → fill_line key offset kind
      ≡ some (
          assignment (record {
            key = key;
            kind = kind;
            range = record { idx = offset; dof = storage_dim kind };
          }))
unfolding fill_line decimal
fill_line-assignment key offset rot3 h = simp append_assoc refl
fill_line-assignment key offset m31 h = simp append_assoc refl
fill_line-assignment key offset m21 h = simp append_assoc refl
fill_line-assignment key offset m11 h = simp append_assoc refl
fill_line-assignment key offset (other storage tangent) h = cc h

pub or-false : (a b : Bool) → (a || b) ≡ false → (a ≡ false) × (b ≡ false)
or-false true b h = cc h
or-false false b h = (refl, h)

pub fill_lines-assignment :
    (offset : ℕ) (fs : List Field)
    → any_other fs ≡ false
    → fill_lines offset fs ≡ some (concat (map assignment (segments_from offset fs)))
unfolding fill_lines
fill_lines-assignment offset [] h = refl
fill_lines-assignment offset ((key, kind) ∷ fs) h =
    let (known, rest) = or-false (is_other kind) (any_other fs) h in
    rw
      (
        fill_line-assignment key offset kind known,
        fill_lines-assignment (offset + storage_dim kind) fs rest,
      )
      refl

abbrev pub ranges : List Segment → List IdxDof
ranges ss = map (λ s. s.range) ss

holders-segments_from :
    (i offset : ℕ) (fs : List Field)
    → holders i (ranges (segments_from offset fs))
      ≡ (if ltb i offset then 0 else if ltb i (offset + total_storage_dim fs) then 1 else 0)
holders-segments_from i offset [] = ground arith
holders-segments_from i offset ((key, kind) ∷ fs) =
    ground (arith, holders-segments_from i (offset + storage_dim kind) fs)

-- When the types of a state's parts are known, `Data()` assigns each part to a range of the vector,
-- and each place of the vector lies in the range of exactly one part.
pub fill_lines_tile :
    (fs : List Field) (i : ℕ)
    → any_other fs ≡ false
    → (fill_lines 0 fs ≡ some (concat (map assignment (segments_from 0 fs))))
      × (holders i (ranges (segments_from 0 fs)) ≡ (if ltb i (total_storage_dim fs) then 1 else 0))
fill_lines_tile fs i h =
    (fill_lines-assignment 0 fs h, ground (arith, holders-segments_from i 0 fs))
