-- ===== src/Params/Validation/Names.antt =====
-- When two parameters get different names.
use infinity_autopilot.Prelude.{
  ◌≡◌, refl, ap, ap₂, sym, ◌∙◌, ◌↔◌, [], ◌∷◌, ◌++◌, append_assoc, false, ◌==◌, if◌then◌else◌,
}
use infinity_autopilot.Text.{Text, codes}
use infinity_autopilot.Params.Yaml.{Python}
use infinity_autopilot.Params.Collect.{full_name}

-- No underscore.
abbrev pub OnePart : Text → Type 0
OnePart [] = Unit
OnePart (c ∷ s) = ((c == b'_') ≡ false) × OnePart s

-- The part before the first underscore, and the one behind.
abbrev before : Text → Text
before [] = []
before (c ∷ s) = let rest = before s in if c == b'_' then [] else c ∷ rest

abbrev behind : Text → Text
behind [] = []
behind (c ∷ s) = let rest = behind s in if c == b'_' then s else rest

before-OnePart : (m p : Text) → OnePart m → before (m ++ b'_' ∷ p) ≡ m
before-OnePart [] p h = refl
before-OnePart (c ∷ m) p h = rw h.0 (ap (λ t. c ∷ t) (before-OnePart m p h.1))

behind-OnePart : (m p : Text) → OnePart m → behind (m ++ b'_' ∷ p) ≡ p
behind-OnePart [] p h = refl
behind-OnePart (c ∷ m) p h = rw h.0 (behind-OnePart m p h.1)

full_name_lem : (py : Python) (m p : Text) → full_name py m p ≡ py.upper m ++ b'_' ∷ p
unfolding full_name
full_name_lem py m p = append_assoc (py.upper m) (codes "_") p

-- Parameters of modules whose names in capitals hold no underscore get the same name exactly when
-- these names and the parameters' own names are the same.
pub full_name_inj :
    (py : Python) (m n p q : Text)
    → OnePart (py.upper m)
    → OnePart (py.upper n)
    → (full_name py m p ≡ full_name py n q) ↔ ((py.upper m ≡ py.upper n) × (p ≡ q))
full_name_inj py m n p q hm hn =
    rw (full_name_lem py m p, full_name_lem py n q)
      (
        λ e. (
          sym (before-OnePart (py.upper m) p hm) ∙ ap before e ∙ before-OnePart (py.upper n) q hn,
          sym (behind-OnePart (py.upper m) p hm) ∙ ap behind e ∙ behind-OnePart (py.upper n) q hn,
        ),
        λ (e, f). ap₂ (λ s t. s ++ b'_' ∷ t) e f,
      )
