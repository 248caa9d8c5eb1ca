-- ===== src/Topic/Parse/Queue.antt =====
-- When a topic's file gives a queue length.
use infinity_autopilot.Prelude.{
  ◌≡◌, refl, sym, subst, List, [], ◌∷◌, Option, none, some, Bool, true, false, ◌||◌, ◌==◌, ==→≡,
  Bool-cases, inl, inr, get_elem?,
}
use infinity_autopilot.Text.{Text, strip, split, starts_with, file_lines}
use infinity_autopilot.Topic.Parse.{
  Msg, no_msg, queue_key, name_key, set_queue, set_name, add_field, and_then, parse_stripped,
  parse_line, parse_lines, parse_msg_file,
}

abbrev pub any_queue : List Text → Bool
any_queue [] = false
any_queue (line ∷ ls) = starts_with (strip line) queue_key || any_queue ls

abbrev pub is_some : Option Text → Bool
is_some none = false
is_some (some _) = true

abbrev HasQueue : Bool → Option Msg → Type 0
HasQueue b none = Unit
HasQueue b (some m) = is_some m.queue_len ≡ b

or_true : (a : Bool) → (a || true) ≡ true
or_true true = refl
or_true false = refl

or_false : (a : Bool) → (a || false) ≡ a
or_false true = refl
or_false false = refl

or_assoc : (a b c : Bool) → ((a || b) || c) ≡ (a || (b || c))
or_assoc true b c = refl
or_assoc false b c = refl

set_queue-HasQueue : (m : Msg) (v : Option Text) → HasQueue true (set_queue m v)
set_queue-HasQueue m none = tt
set_queue-HasQueue m (some v) = refl

set_name-HasQueue : (m : Msg) (v : Option Text) → HasQueue (is_some m.queue_len) (set_name m v)
set_name-HasQueue m none = tt
set_name-HasQueue m (some v) = refl

add_field-HasQueue :
    (m : Msg) (parts : List Text) → HasQueue (is_some m.queue_len) (some (add_field m parts))
add_field-HasQueue m [] = refl
add_field-HasQueue m (_ ∷ []) = refl
add_field-HasQueue m (_ ∷ _ ∷ _) = refl

parse_stripped-HasQueue :
    (m : Msg) (line : Text) (parts : List Text)
    → HasQueue (is_some m.queue_len || starts_with line queue_key) (parse_stripped m line parts)
unfolding parse_stripped
parse_stripped-HasQueue m [] parts = sym (or_false (is_some m.queue_len))
parse_stripped-HasQueue m (c ∷ s) parts = elim (Bool-cases (c == b'#')) [
  | inl e ↦
      subst
        (λ d.
          HasQueue (is_some m.queue_len || starts_with (d ∷ s) queue_key)
            (parse_stripped m (d ∷ s) parts))
        (sym (==→≡ c b'#' e)) (sym (or_false (is_some m.queue_len)))
  | inr e ↦ elim (Bool-cases (starts_with (c ∷ s) queue_key)) [
    | inl q ↦ rw (e, q, or_true (is_some m.queue_len)) (set_queue-HasQueue m (get_elem? parts 1))
    | inr q ↦ elim (Bool-cases (starts_with (c ∷ s) name_key)) [
      | inl n ↦
          rw (e, q, n, or_false (is_some m.queue_len)) (set_name-HasQueue m (get_elem? parts 1))
      | inr n ↦ rw (e, q, n, or_false (is_some m.queue_len)) (add_field-HasQueue m parts)
    ]
  ]
]

and_then-HasQueue :
    (r : Option Msg) (f : Msg → Option Msg) (a b : Bool)
    → HasQueue a r
    → ((m : Msg) → HasQueue (is_some m.queue_len || b) (f m))
    → HasQueue (a || b) (and_then r f)
and_then-HasQueue none f a b hr h = tt
and_then-HasQueue (some m) f a b hr h = subst (λ x. HasQueue (x || b) (f m)) hr (h m)

parse_lines-HasQueue :
    (m : Msg) (ls : List Text) → HasQueue (is_some m.queue_len || any_queue ls) (parse_lines m ls)
unfolding parse_lines parse_line
parse_lines-HasQueue m [] = sym (or_false (is_some m.queue_len))
parse_lines-HasQueue m (line ∷ ls) =
    subst (λ b. HasQueue b (parse_lines m (line ∷ ls)))
      (or_assoc (is_some m.queue_len) (starts_with (strip line) queue_key) (any_queue ls))
      (and_then-HasQueue (parse_line m line) (λ m. parse_lines m ls) _ (any_queue ls)
        (parse_stripped-HasQueue m (strip line) (split (strip line)))
        (λ m. parse_lines-HasQueue m ls))

-- A file that can be read gives a queue length exactly when one of its lines begins with the key.
pub parse_msg_file-queue_len :
    (text : Text) (m : Msg)
    → parse_msg_file text ≡ some m
    → is_some m.queue_len ≡ any_queue (file_lines text)
unfolding parse_msg_file
parse_msg_file-queue_len text m e =
    subst (HasQueue (any_queue (file_lines text))) e (parse_lines-HasQueue no_msg (file_lines text))
