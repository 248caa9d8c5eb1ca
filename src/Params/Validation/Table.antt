-- ===== src/Params/Validation/Table.antt =====
-- The enumerators and the table of the generated files agree.
use infinity_autopilot.Prelude.{
  ℕ, zero, suc, ◌+◌, ◌≡◌, refl, ap, ap₂, sym, ◌∙◌, List, [], ◌∷◌, Option, none, some, ◌>>=◌, Bool,
  true, false, ◌||◌, get_elem?, arith,
}
use mathlib.Core.Bool.{false≢true}
use infinity_autopilot.Text.{Text}
use infinity_autopilot.Text.Decimal.{decimal, value, value-decimal}
use infinity_autopilot.Params.Yaml.{Yaml, Python, as_text}
use infinity_autopilot.Params.Collect.{Param, collect_params}
use infinity_autopilot.Params.Generate.{
  enum_line, enum_lines, row, on_row, table_rows, generate, on_params,
}

-- Whether the type is not a text.
abbrev pub is_untyped : Param → Bool
is_untyped p = elim (as_text p.type) [ none ↦ true | some _ ↦ false ]

abbrev pub any_untyped : List Param → Bool
any_untyped [] = false
any_untyped (p ∷ ps) = is_untyped p || any_untyped ps

row-is_none :
    (py : Python) (p : Param) → (elim (row py p) [ none ↦ true | some _ ↦ false ]) ≡ is_untyped p
unfolding row
row-is_none py p = step (as_text p.type) _
  where
    step :
        (t : Option Text) (f : Text → Text)
        → (elim (t >>= λ t. some (f t)) [ none ↦ true | some _ ↦ false ])
          ≡ (elim t [ none ↦ true | some _ ↦ false ])
    step none f = refl
    step (some t) f = refl

on_row-raised :
    (r : Option Text) (rest : List Text × Bool)
    → (on_row r rest).1 ≡ (elim r [ none ↦ true | some _ ↦ false ] || rest.1)
on_row-raised none rest = refl
on_row-raised (some t) rest = refl

-- The table is cut short exactly when some type is not a text.
table_rows-raised : (py : Python) (ps : List Param) → (table_rows py ps).1 ≡ any_untyped ps
unfolding table_rows
table_rows-raised py [] = refl
table_rows-raised py (p ∷ ps) =
    on_row-raised (row py p) (table_rows py ps)
    ∙ ap₂ (λ a b. a || b) (row-is_none py p) (table_rows-raised py ps)

-- A run raises an exception exactly when the parameters cannot be collected or the type of one
-- of them is not a text.
pub generate-raised :
    (py : Python) (output_dir : Text) (files : List (Option Yaml))
    → (generate py output_dir files).raised
      ≡ (elim (collect_params py files) [ none ↦ true | some ps ↦ any_untyped ps ])
unfolding generate
generate-raised py output_dir files = step (collect_params py files)
  where
    step :
        (r : Option (List Param))
        → (on_params py output_dir r).raised ≡ (elim r [ none ↦ true | some ps ↦ any_untyped ps ])
    step none = refl
    step (some ps) = table_rows-raised py ps

get_elem?-enum_lines :
    (ps : List Param) (i k : ℕ)
    → get_elem? (enum_lines i ps) k ≡ (get_elem? ps k >>= λ p. some (enum_line p.name (i + k)))
unfolding enum_lines
get_elem?-enum_lines [] i k = refl
get_elem?-enum_lines (q ∷ ps) i zero = ap (λ j. some (enum_line q.name j)) (omega arith)
get_elem?-enum_lines (q ∷ ps) i (suc k) =
    get_elem?-enum_lines ps (suc i) k
    ∙ ap (λ j. get_elem? ps k >>= λ p. some (enum_line p.name j)) (omega arith)

get_elem?-on_row :
    (r : Option Text) (rest : List Text × Bool) (k : ℕ)
    → (on_row r rest).1 ≡ false
    → (get_elem? (on_row r rest).0 zero ≡ r)
      × (get_elem? (on_row r rest).0 (suc k) ≡ get_elem? rest.0 k)
      × (rest.1 ≡ false)
get_elem?-on_row none rest k h = absurd (false≢true (sym h))
get_elem?-on_row (some t) rest k h = (refl, refl, h)

get_elem?-table_rows :
    (py : Python) (ps : List Param) (k : ℕ)
    → (table_rows py ps).1 ≡ false
    → get_elem? (table_rows py ps).0 k ≡ (get_elem? ps k >>= row py)
unfolding table_rows
get_elem?-table_rows py [] k h = refl
get_elem?-table_rows py (p ∷ ps) zero h = (get_elem?-on_row (row py p) (table_rows py ps) zero h).0
get_elem?-table_rows py (p ∷ ps) (suc k) h =
    let (_, e, hs) = get_elem?-on_row (row py p) (table_rows py ps) k h in
    e ∙ get_elem?-table_rows py ps k hs

-- When the type of every parameter is a text, the k-th enumerator of `ID` is the k-th
-- parameter's name with the number k in decimal, the k-th row of the table is the row of the
-- same parameter, both end where the parameters end, and the decimal text of k reads back as k.
pub enum_lines-table_rows :
    (py : Python) (ps : List Param) (k : ℕ)
    → any_untyped ps ≡ false
    → ((get_elem? (enum_lines 0 ps) k ≡ (get_elem? ps k >>= λ p. some (enum_line p.name k)))
        × (get_elem? (table_rows py ps).0 k ≡ (get_elem? ps k >>= row py))
        × (value (decimal k) ≡ k))
enum_lines-table_rows py ps k h = (
  get_elem?-enum_lines ps 0 k
      ∙ ap (λ j. get_elem? ps k >>= λ p. some (enum_line p.name j)) (omega arith),
  get_elem?-table_rows py ps k (table_rows-raised py ps ∙ h),
  value-decimal k,
)
