-- ===== src/Topic/Render.antt =====
-- `generate_header` and `generate_metadata` of scripts/srimb/generate_topic.py, and the lines
-- that its `main` adds for a topic.
use infinity_autopilot.Prelude.{
  ℕ, zero, suc, List, [], ◌∷◌, ◌++◌, map, Option, none, some, Bool, true, false, if◌then◌else◌,
}
use infinity_autopilot.Text.{Text, codes, join}
use infinity_autopilot.Topic.Parse.{Msg}

-- Whether Python takes an optional text for true.
abbrev pub is_truthy : Option Text → Bool
is_truthy none = false
is_truthy (some []) = false
is_truthy (some (_ ∷ _)) = true

-- What stands in an f-string for an optional text; only read where it is true.
abbrev pub or_empty : Option Text → Text
or_empty none = []
or_empty (some t) = t

-- `s[:n]`.
abbrev pub take : ℕ → Text → Text
take zero s = []
take (suc n) [] = []
take (suc n) (c ∷ s) = c ∷ take n s

abbrev pub newline : Text
newline = codes "\n"

abbrev pub field_line : Text × Text → Text
field_line (typ, name) = codes "    " ++ typ ++ codes " " ++ name ++ codes ";"

unfoldable pub generate_header : Text → List (Text × Text) → Text
generate_header data_struct_name fields = join newline (
    (codes "// Auto-generated from " ++ data_struct_name ++ codes ".topic - DO NOT EDIT")
      ∷ codes "//                   Infinity-Autopilot"
      ∷ codes "#pragma once"
      ∷ codes "#include <cstdint>"
      ∷ codes "#include <cstddef>"
      ∷ codes ""
      ∷ (codes "struct " ++ data_struct_name ++ codes "Data {")
      ∷ codes ""
      ∷ map field_line fields
    ++ codes "};" ∷ [])

-- `hexdigest name` is the hexadecimal MD5 digest of the encoded name.
unfoldable pub generate_metadata : (Text → Text) → Text → Option Text → Option Text → Text
generate_metadata hexdigest struct_name queue_len topic_name =
    let srimb_name = if is_truthy topic_name then or_empty topic_name else struct_name in
    let topic_hash = take 8 (hexdigest srimb_name) in
    join newline (
      codes ""
        ∷ (codes "struct " ++ struct_name ++ codes "Metadata {")
        ∷ (codes "    static constexpr const char* TOPIC_NAME = \"" ++ srimb_name ++ codes "\";")
        ∷ (codes "    static constexpr size_t TOPIC_SIZE = sizeof("
            ++ struct_name
            ++ codes "Data);")
        ∷ (codes "    static constexpr uint32_t TOPIC_HASH = 0x" ++ topic_hash ++ codes ";")
        ∷ (if is_truthy queue_len
            then (codes "    static constexpr uint8_t QUEUE_LENGTH = "
                ++ or_empty queue_len
                ++ codes ";")
              ∷ []
            else [])
      ++ codes "};" ∷ [])

abbrev pub queue_alias : Text → Text
queue_alias struct_name =
    codes "using "
    ++ struct_name
    ++ codes "Topic = SRIMBQueueTopic<"
    ++ struct_name
    ++ codes "Data, "
    ++ struct_name
    ++ codes "Metadata::QUEUE_LENGTH>;"

abbrev pub plain_alias : Text → Text
plain_alias struct_name =
    codes "using " ++ struct_name ++ codes "Topic = SRIMBTopic<" ++ struct_name ++ codes "Data>;"

unfoldable pub alias_line : Text → Msg → Text
alias_line struct_name m =
    if is_truthy m.queue_len then queue_alias struct_name else plain_alias struct_name

unfoldable pub include_line : Text → Text
include_line struct_name = codes "#include \"" ++ struct_name ++ codes ".h\""
