-- ===== src/Topic/Parse/Errors.antt =====
-- When reading a topic's file fails.
use infinity_autopilot.Prelude.{
  ◌≡◌, refl, ap, sym, subst, ◌∙◌, List, [], ◌∷◌, Option, none, some, Bool, true, false, ◌&&◌, ◌||◌,
  ◌==◌, ==→≡, Bool-cases, inl, inr, get_elem?,
}
use infinity_autopilot.Text.{Text, strip, split, starts_with, file_lines}
use infinity_autopilot.Topic.Parse.{
  Msg, no_msg, queue_key, name_key, set_queue, set_name, and_then, parse_stripped, parse_line,
  parse_lines, parse_msg_file,
}

abbrev pub is_none {ℓ} : {A : Type ℓ} → Option A → Bool
is_none none = true
is_none (some _) = false

abbrev pub is_short : List Text → Bool
is_short [] = true
is_short (_ ∷ []) = true
is_short (_ ∷ _ ∷ _) = false

-- A directive, that is a line that begins with a keyword, without a value.
abbrev pub is_bare : Text → List Text → Bool
is_bare line parts = (starts_with line queue_key || starts_with line name_key) && is_short parts

abbrev pub any_bare : List Text → Bool
any_bare [] = false
any_bare (line ∷ ls) = is_bare (strip line) (split (strip line)) || any_bare ls

set_queue-is_none :
    (m : Msg) (parts : List Text) → is_none (set_queue m (get_elem? parts 1)) ≡ is_short parts
set_queue-is_none m [] = refl
set_queue-is_none m (_ ∷ []) = refl
set_queue-is_none m (_ ∷ _ ∷ _) = refl

set_name-is_none :
    (m : Msg) (parts : List Text) → is_none (set_name m (get_elem? parts 1)) ≡ is_short parts
set_name-is_none m [] = refl
set_name-is_none m (_ ∷ []) = refl
set_name-is_none m (_ ∷ _ ∷ _) = refl

parse_stripped-is_none :
    (m : Msg) (line : Text) (parts : List Text)
    → is_none (parse_stripped m line parts) ≡ is_bare line parts
unfolding parse_stripped
parse_stripped-is_none m [] parts = refl
parse_stripped-is_none m (c ∷ s) parts = elim (Bool-cases (c == b'#')) [
  | inl e ↦
      subst (λ d. is_none (parse_stripped m (d ∷ s) parts) ≡ is_bare (d ∷ s) parts)
        (sym (==→≡ c b'#' e)) refl
  | inr e ↦ elim (Bool-cases (starts_with (c ∷ s) queue_key)) [
    | inl q ↦ rw (e, q) (set_queue-is_none m parts)
    | inr q ↦ elim (Bool-cases (starts_with (c ∷ s) name_key)) [
      | inl n ↦ rw (e, q, n) (set_name-is_none m parts)
      | inr n ↦ rw (e, q, n) refl
    ]
  ]
]

and_then-is_none :
    (r : Option Msg) (f : Msg → Option Msg) (b : Bool)
    → ((m : Msg) → is_none (f m) ≡ b)
    → is_none (and_then r f) ≡ (is_none r || b)
and_then-is_none none f b h = refl
and_then-is_none (some m) f b h = h m

parse_lines-is_none : (m : Msg) (ls : List Text) → is_none (parse_lines m ls) ≡ any_bare ls
unfolding parse_lines parse_line
parse_lines-is_none m [] = refl
parse_lines-is_none m (line ∷ ls) =
    and_then-is_none (parse_line m line) (λ m. parse_lines m ls) (any_bare ls)
      (λ m. parse_lines-is_none m ls)
    ∙ ap (λ b. b || any_bare ls) (parse_stripped-is_none m (strip line) (split (strip line)))

-- Reading a file raises an `IndexError` exactly when some stripped line begins with QUEUE_LENGTH
-- or TOPIC_NAME and is a single word.
pub parse_msg_file-is_none :
    (text : Text) → is_none (parse_msg_file text) ≡ any_bare (file_lines text)
unfolding parse_msg_file
parse_msg_file-is_none text = parse_lines-is_none no_msg (file_lines text)
