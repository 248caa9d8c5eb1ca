-- ===== src/Topic/Generate/Names.antt =====
-- Which entries of a directory scripts/srimb/generate_topic.py takes for topics, and their names.
use infinity_autopilot.Prelude.{
  ℕ, suc, ◌-◌, ◌≤◌, ◌≡◌, refl, ap, sym, ◌∙◌, List, [], ◌∷◌, Option, none, some, ◌>>=◌, Bool, true,
  false, if◌then◌else◌, length, Bool-cases, inl, inr, arith,
}
use infinity_autopilot.Text.{Text, codes, same_text, ends_with}
use infinity_autopilot.Text.Laws.{same_text→≡}
use infinity_autopilot.Topic.Render.{take}
use infinity_autopilot.Topic.Generate.{Entry, is_topic, struct_name_of, read}
use infinity_autopilot.Topic.Generate.Described.{Topic, first, topics}

-- What stands in front of a last ".topic".
abbrev pub stem : Text → Option Text
stem [] = none
stem (c ∷ s) =
    let rest = stem s in
    if same_text (c ∷ s) (codes ".topic") then some [] else (do t ← rest; some (c ∷ t))

abbrev pub stems : List Entry → List Topic × Bool
stems [] = ([], false)
stems ((fname, content) ∷ entries) =
    let rest = stems entries in
    elim (stem fname) [ none ↦ rest | some name ↦ first name (read content) rest ]

ends_with-length : (s : Text) → ends_with s (codes ".topic") ≡ true → 6 ≤ length s
ends_with-length [] h = cc h
ends_with-length (c ∷ s) h = elim (Bool-cases (same_text (c ∷ s) (codes ".topic"))) [
  | inl e ↦ omega (arith, ap length (same_text→≡ (c ∷ s) (codes ".topic") e))
  | inr e ↦ omega (arith, ends_with-length s (rw e at h))
]

take-suc :
    (c : ℕ) (s : Text)
    → 6 ≤ length s
    → take (suc (length s) - 6) (c ∷ s) ≡ c ∷ take (length s - 6) s
take-suc c s h =
    let e : suc (length s) - 6 ≡ suc (length s - 6) = omega (arith, h) in ap (λ n. take n (c ∷ s)) e

-- `fname.endswith('.topic')` with `fname[:-6]` is this stem.
stem-struct_name_of : (s : Text) → stem s ≡ (if is_topic s then some (struct_name_of s) else none)
stem-struct_name_of [] = refl
stem-struct_name_of (c ∷ s) = elim (Bool-cases (same_text (c ∷ s) (codes ".topic"))) [
  | inl e ↦
      rw e (ap (λ t. some (take (length t - 6) t)) (sym (same_text→≡ (c ∷ s) (codes ".topic") e)))
  | inr e ↦ rw e (
      ap (λ o. o >>= λ t. some (c ∷ t)) (stem-struct_name_of s)
      ∙ behind (ends_with s (codes ".topic")) refl)
]
  where
    behind :
        (ends : Bool)
        → ends_with s (codes ".topic") ≡ ends
        → ((if ends then some (take (length s - 6) s) else none) >>= λ t. some (c ∷ t))
          ≡ (if ends then some (take (suc (length s) - 6) (c ∷ s)) else none)
    behind true h = ap some (sym (take-suc c s (ends_with-length s h)))
    behind false h = refl

stem-cases :
    {A : Type 0} (b : Bool) (name : Text) (o : Option Text) (x : A) (f : Text → A)
    → o ≡ (if b then some name else none)
    → (if b then f name else x) ≡ elim o [ none ↦ x | some name ↦ f name ]
stem-cases true name o x f h = rw h refl
stem-cases false name o x f h = rw h refl

pub topics-stems : (entries : List Entry) → topics entries ≡ stems entries
topics-stems [] = refl
topics-stems ((fname, content) ∷ entries) = rw (topics-stems entries) (
    stem-cases (is_topic fname) (struct_name_of fname) (stem fname) (stems entries)
      (λ name. first name (read content) (stems entries)) (stem-struct_name_of fname))
