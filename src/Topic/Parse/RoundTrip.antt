-- ===== src/Topic/Parse/RoundTrip.antt =====
-- Reading back a topic's file that is written line by line.
use infinity_autopilot.Prelude.{◌≡◌, refl, ap, ◌∙◌, ◌++◌, append_assoc, List, [], ◌∷◌, some, false}
use infinity_autopilot.Text.{
  Text, is_space, IsWord-of_is_word, codes, strip, split, rstrip, keep, starts_with, OneLine,
  IsWord, file_lines,
}
use infinity_autopilot.Text.Laws.{
  strip-two, split-two, starts_with-space, OneLine-++, IsWord-OneLine, file_lines-line,
}
use infinity_autopilot.Topic.Parse.{
  Msg, no_msg, type_map, queue_key, name_key, parse_stripped, parse_line, parse_lines,
  parse_msg_file,
}

-- What a line of a topic's file can say.
pub data Decl : Type 0 where
  blank : Decl
  comment : Text → Decl
  queue : Text → Decl
  topic : Text → Decl
  field : Text → Text → Decl

-- A line, without its end.
abbrev pub line_of : Decl → Text
line_of blank = []
line_of (comment t) = b'#' ∷ t
line_of (queue v) = queue_key ++ b' ' ∷ v
line_of (topic v) = name_key ++ b' ' ∷ v
line_of (field typ name) = typ ++ b' ' ∷ name

abbrev pub file_of : List Decl → Text
file_of [] = []
file_of (d ∷ ds) = line_of d ++ 10 ∷ file_of ds

-- A comment is one line, values and names are words, and a type is none of the keywords.
abbrev pub IsDecl : Decl → Type 0
IsDecl blank = Unit
IsDecl (comment t) = OneLine t
IsDecl (queue v) = IsWord v
IsDecl (topic v) = IsWord v
IsDecl (field typ name) =
    IsWord typ
    × IsWord name
    × (starts_with typ (codes "#") ≡ false)
    × (starts_with typ queue_key ≡ false)
    × (starts_with typ name_key ≡ false)

abbrev pub AllDecl : List Decl → Type 0
AllDecl [] = Unit
AllDecl (d ∷ ds) = IsDecl d × AllDecl ds

abbrev pub says : Msg → Decl → Msg
says m blank = m
says m (comment t) = m
says m (queue v) = record m { queue_len = some v }
says m (topic v) = record m { topic_name = some v }
says m (field typ name) = record m { fields = m.fields ++ (type_map typ, name) ∷ [] }

-- What the lines add up to: the fields in order, and the last directive of each kind.
abbrev pub meaning : Msg → List Decl → Msg
meaning m [] = m
meaning m (d ∷ ds) = meaning (says m d) ds

-- The keywords are words.
keys_words : IsWord (codes "#") × IsWord queue_key × IsWord name_key
unfolding is_space
keys_words = (
  IsWord-of_is_word (codes "#") refl,
  IsWord-of_is_word queue_key refl,
  IsWord-of_is_word name_key refl,
)

parse_comment : (m : Msg) (r : Text) → parse_stripped m (keep b'#' r) (split (keep b'#' r)) ≡ some m
unfolding is_space parse_stripped
parse_comment m [] = refl
parse_comment m (c ∷ r) = refl

-- A line of two words is stripped and split into them.
parse_line-two :
    (m : Msg) (a b : Text)
    → IsWord a
    → IsWord b
    → parse_line m ((a ++ 32 ∷ b) ++ 10 ∷ []) ≡ parse_stripped m (a ++ 32 ∷ b) (a ∷ b ∷ [])
unfolding parse_line
parse_line-two m a b ha hb =
    ap (λ t. parse_stripped m (strip t) (split (strip t))) (append_assoc a (32 ∷ b) (10 ∷ []))
    ∙ ap (λ t. parse_stripped m t (split t)) (strip-two a b ha hb)
    ∙ ap (parse_stripped m (a ++ 32 ∷ b)) (split-two a b ha hb)

parse_field :
    (m : Msg) (typ name : Text)
    → IsDecl (field typ name)
    → parse_stripped m (typ ++ 32 ∷ name) (typ ∷ name ∷ []) ≡ some (says m (field typ name))
unfolding parse_stripped
parse_field m [] name h = absurd h.0
parse_field m (c ∷ typ) name h =
    rw
      (
        starts_with-space (c ∷ typ) name (codes "#") keys_words.0,
        starts_with-space (c ∷ typ) name queue_key keys_words.1,
        starts_with-space (c ∷ typ) name name_key keys_words.2,
        h.2,
        h.3,
        h.4,
      )
      refl

parse_line-line_of :
    (m : Msg) (d : Decl) → IsDecl d → parse_line m (line_of d ++ 10 ∷ []) ≡ some (says m d)
unfolding parse_line is_space
parse_line-line_of m blank h = refl
parse_line-line_of m (comment t) h = parse_comment m (rstrip (t ++ 10 ∷ []))
parse_line-line_of m (queue v) h = parse_line-two m queue_key v keys_words.1 h
parse_line-line_of m (topic v) h = parse_line-two m name_key v keys_words.2 h
parse_line-line_of m (field typ name) h =
    parse_line-two m typ name h.0 h.1 ∙ parse_field m typ name h

line_of-OneLine : (d : Decl) → IsDecl d → OneLine (line_of d)
line_of-OneLine blank h = tt
line_of-OneLine (comment t) h = (refl, refl, h)
line_of-OneLine (queue v) h =
    OneLine-++ queue_key (32 ∷ v) (IsWord-OneLine queue_key keys_words.1)
      (refl, refl, IsWord-OneLine v h)
line_of-OneLine (topic v) h =
    OneLine-++ name_key (32 ∷ v) (IsWord-OneLine name_key keys_words.2)
      (refl, refl, IsWord-OneLine v h)
line_of-OneLine (field typ name) h =
    OneLine-++ typ (32 ∷ name) (IsWord-OneLine typ h.0) (refl, refl, IsWord-OneLine name h.1)

parse_lines-file_of :
    (m : Msg) (ds : List Decl)
    → AllDecl ds
    → parse_lines m (file_lines (file_of ds)) ≡ some (meaning m ds)
unfolding parse_lines
parse_lines-file_of m [] h = refl
parse_lines-file_of m (d ∷ ds) h =
    rw
      (file_lines-line (line_of d) (file_of ds) (line_of-OneLine d h.0), parse_line-line_of m d h.0)
      (parse_lines-file_of (says m d) ds h.1)

-- A file of blank lines, comments, directives whose value is one word, and fields whose type is
-- a word that does not begin like a comment or a directive and whose name is a word, is read as
-- it was written: the fields in the file's order, their types translated, with the last queue
-- length and the last topic name.
pub parse_msg_file-file_of :
    (ds : List Decl) → AllDecl ds → parse_msg_file (file_of ds) ≡ some (meaning no_msg ds)
unfolding parse_msg_file
parse_msg_file-file_of ds h = parse_lines-file_of no_msg ds h
