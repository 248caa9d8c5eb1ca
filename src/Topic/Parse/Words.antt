-- ===== src/Topic/Parse/Words.antt =====
-- What a topic's file gives is made of words.
use infinity_autopilot.Prelude.{
  ◌≡◌, refl, subst, List, [], ◌∷◌, ◌++◌, Option, none, some, Bool, true, false, ◌||◌, if◌then◌else◌,
  get_elem?,
}
use infinity_autopilot.Text.{
  Text, codes, is_space, same_text, strip, split, starts_with, file_lines, IsWord, AllWords,
  IsWord-of_is_word, is_word, null,
}
use mathlib.Core.Bool.{false≢true}
use infinity_autopilot.Text.Laws.{split-AllWords}
use infinity_autopilot.Topic.Parse.{
  Msg, no_msg, get, type_table, type_map, queue_key, name_key, set_queue, set_name, add_field,
  and_then, parse_stripped, parse_line, parse_lines, parse_msg_file,
}

abbrev pub AllFields : List (Text × Text) → Type 0
AllFields [] = Unit
AllFields ((typ, name) ∷ fs) = IsWord typ × IsWord name × AllFields fs

abbrev pub IsWordOption : Option Text → Type 0
IsWordOption none = Unit
IsWordOption (some w) = IsWord w

-- Types, names, the queue length and the topic name are words.
abbrev pub IsMsg : Msg → Type 0
IsMsg m = AllFields m.fields × IsWordOption m.queue_len × IsWordOption m.topic_name

abbrev pub IsMsgOption : Option Msg → Type 0
IsMsgOption none = Unit
IsMsgOption (some m) = IsMsg m

abbrev ValuesWords : List (Text × Text) → Type 0
ValuesWords [] = Unit
ValuesWords ((k, v) ∷ table) = IsWord v × ValuesWords table

get-IsWord :
    (table : List (Text × Text)) (key default : Text)
    → ValuesWords table
    → IsWord default
    → IsWord (get table key default)
get-IsWord [] key default ht h = h
get-IsWord ((k, v) ∷ table) key default ht h =
    pick (same_text key k) v (get table key default) ht.0 (get-IsWord table key default ht.1 h)
  where
    pick : (b : Bool) (v w : Text) → IsWord v → IsWord w → IsWord (if b then v else w)
    pick true v w hv hw = hv
    pick false v w hv hw = hw

abbrev values_are_words : List (Text × Text) → Bool
values_are_words [] = true
values_are_words ((k, v) ∷ table) = if is_word v then values_are_words table else false

if-true : (b c : Bool) → (if b then c else false) ≡ true → (b ≡ true) × (c ≡ true)
if-true true c h = (refl, h)
if-true false c h = absurd (false≢true h)

values_are_words-ValuesWords :
    (table : List (Text × Text)) → values_are_words table ≡ true → ValuesWords table
values_are_words-ValuesWords [] h = tt
values_are_words-ValuesWords ((k, v) ∷ table) h =
    let (hv, ht) = if-true (is_word v) (values_are_words table) h in
    (IsWord-of_is_word v hv, values_are_words-ValuesWords table ht)

type_map-IsWord : (typ : Text) → IsWord typ → IsWord (type_map typ)
unfolding type_map is_space
type_map-IsWord typ h =
    get-IsWord type_table typ typ (values_are_words-ValuesWords type_table refl) h

AllFields-++ :
    (fs : List (Text × Text)) (typ name : Text)
    → AllFields fs
    → IsWord typ
    → IsWord name
    → AllFields (fs ++ (typ, name) ∷ [])
AllFields-++ [] typ name hf ht hn = (ht, hn, tt)
AllFields-++ ((t, n) ∷ fs) typ name hf ht hn = (hf.0, hf.1, AllFields-++ fs typ name hf.2 ht hn)

second-IsWord : (parts : List Text) → AllWords parts → IsWordOption (get_elem? parts 1)
second-IsWord [] h = tt
second-IsWord (_ ∷ []) h = tt
second-IsWord (_ ∷ _ ∷ _) h = h.1.0

set_queue-IsMsg :
    (m : Msg) (v : Option Text) → IsMsg m → IsWordOption v → IsMsgOption (set_queue m v)
set_queue-IsMsg m none hm hv = tt
set_queue-IsMsg m (some v) hm hv = (hm.0, hv, hm.2)

set_name-IsMsg : (m : Msg) (v : Option Text) → IsMsg m → IsWordOption v → IsMsgOption (set_name m v)
set_name-IsMsg m none hm hv = tt
set_name-IsMsg m (some v) hm hv = (hm.0, hm.1, hv)

add_field-IsMsg :
    (m : Msg) (parts : List Text) → IsMsg m → AllWords parts → IsMsg (add_field m parts)
add_field-IsMsg m [] hm hp = hm
add_field-IsMsg m (_ ∷ []) hm hp = hm
add_field-IsMsg m (typ ∷ name ∷ _) hm hp =
    (AllFields-++ m.fields (type_map typ) name hm.0 (type_map-IsWord typ hp.0) hp.1.0, hm.1, hm.2)

-- One of four outcomes, by three tests.
by_tests :
    (a b c : Bool) (w x y z : Option Msg)
    → IsMsgOption w
    → IsMsgOption x
    → IsMsgOption y
    → IsMsgOption z
    → IsMsgOption (if a then w else if b then x else if c then y else z)
by_tests true b c w x y z hw hx hy hz = hw
by_tests false true c w x y z hw hx hy hz = hx
by_tests false false true w x y z hw hx hy hz = hy
by_tests false false false w x y z hw hx hy hz = hz

parse_line-IsMsg : (m : Msg) (line : Text) → IsMsg m → IsMsgOption (parse_line m line)
unfolding parse_line parse_stripped
parse_line-IsMsg m line hm =
    let l = strip line in
    let words = split-AllWords l in
    by_tests (null l || starts_with l (codes "#")) (starts_with l queue_key)
      (starts_with l name_key) (some m) (set_queue m (get_elem? (split l) 1))
      (set_name m (get_elem? (split l) 1)) (some (add_field m (split l))) hm
      (set_queue-IsMsg m (get_elem? (split l) 1) hm (second-IsWord (split l) words))
      (set_name-IsMsg m (get_elem? (split l) 1) hm (second-IsWord (split l) words))
      (add_field-IsMsg m (split l) hm words)

and_then-IsMsg :
    (r : Option Msg) (f : Msg → Option Msg)
    → IsMsgOption r
    → ((m : Msg) → IsMsg m → IsMsgOption (f m))
    → IsMsgOption (and_then r f)
and_then-IsMsg none f hr h = tt
and_then-IsMsg (some m) f hr h = h m hr

parse_lines-IsMsg : (m : Msg) (ls : List Text) → IsMsg m → IsMsgOption (parse_lines m ls)
unfolding parse_lines
parse_lines-IsMsg m [] hm = hm
parse_lines-IsMsg m (line ∷ ls) hm =
    and_then-IsMsg (parse_line m line) (λ m. parse_lines m ls) (parse_line-IsMsg m line hm)
      (λ m. parse_lines-IsMsg m ls)

-- When a file can be read, the types and names of its fields, its queue length and its topic
-- name are not empty and hold no white space.
pub parse_msg_file-IsMsg : (text : Text) (m : Msg) → parse_msg_file text ≡ some m → IsMsg m
unfolding parse_msg_file
parse_msg_file-IsMsg text m e =
    subst IsMsgOption e (parse_lines-IsMsg no_msg (file_lines text) (tt, tt, tt))
