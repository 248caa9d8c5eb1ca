-- ===== src/Topic/Parse.antt =====
-- `parse_msg_file` of scripts/srimb/generate_topic.py, on the text of the file.
use infinity_autopilot.Prelude.{
  ℕ, ◌≡◌, List, [], ◌∷◌, ◌++◌, if◌then◌else◌, Option, none, some, ◌||◌, get_elem?,
}
use infinity_autopilot.Text.{Text, codes, null, same_text, strip, split, starts_with, file_lines}
pub mod Errors
pub mod RoundTrip
pub mod Words
pub mod Queue

-- What a topic's file says.
pub record Msg : Type 0 where
  pub fields : List (Text × Text)
  pub queue_len : Option Text
  pub topic_name : Option Text

abbrev pub no_msg : Msg
no_msg = record { fields = []; queue_len = none; topic_name = none }

abbrev type_table : List (Text × Text)
type_table =
    (codes "uint8", codes "uint8_t")
    ∷ (codes "uint16", codes "uint16_t")
    ∷ (codes "uint32", codes "uint32_t")
    ∷ (codes "uint64", codes "uint64_t")
    ∷ (codes "int8", codes "int8_t")
    ∷ (codes "int16", codes "int16_t")
    ∷ (codes "int32", codes "int32_t")
    ∷ (codes "int64", codes "int64_t")
    ∷ (codes "float32", codes "float")
    ∷ (codes "float64", codes "double")
    ∷ []

-- `table.get(key, default)`.
abbrev pub get : List (Text × Text) → Text → Text → Text
get [] key default = default
get ((k, v) ∷ table) key default = if same_text key k then v else get table key default

unfoldable pub type_map : Text → Text
type_map typ = get type_table typ typ

abbrev pub queue_key : Text
queue_key = codes "QUEUE_LENGTH"

abbrev pub name_key : Text
name_key = codes "TOPIC_NAME"

abbrev pub set_queue : Msg → Option Text → Option Msg
set_queue m none = none
set_queue m (some v) = some (record m { queue_len = some v })

abbrev pub set_name : Msg → Option Text → Option Msg
set_name m none = none
set_name m (some v) = some (record m { topic_name = some v })

abbrev pub add_field : Msg → List Text → Msg
add_field m [] = m
add_field m (_ ∷ []) = m
add_field m (typ ∷ name ∷ _) = record m { fields = m.fields ++ (type_map typ, name) ∷ [] }

-- The body of the loop on a line that is stripped and split. `none` is the `IndexError` of
-- `parts[1]`.
unfoldable pub parse_stripped : Msg → Text → List Text → Option Msg
parse_stripped m line parts =
    if null line || starts_with line (codes "#")
    then some m
    else if starts_with line queue_key
    then set_queue m (get_elem? parts 1)
    else if starts_with line name_key
    then set_name m (get_elem? parts 1)
    else some (add_field m parts)

unfoldable pub parse_line : Msg → Text → Option Msg
unfolding parse_stripped
parse_line m line = let line = strip line in parse_stripped m line (split line)

-- The loop over the lines.
abbrev pub and_then : Option Msg → (Msg → Option Msg) → Option Msg
and_then none f = none
and_then (some m) f = f m

unfoldable pub parse_lines : Msg → List Text → Option Msg
unfolding parse_line
parse_lines m [] = some m
parse_lines m (line ∷ ls) = and_then (parse_line m line) (λ m. parse_lines m ls)

unfoldable pub parse_msg_file : Text → Option Msg
unfolding parse_lines
parse_msg_file text = parse_lines no_msg (file_lines text)
