-- ===== src/Topic/Generate/Texts.antt =====
-- The text of each part that scripts/srimb/generate_topic.py writes for a topic, written out.
use infinity_autopilot.Prelude.{
  ◌≡◌, refl, sym, List, [], ◌∷◌, ◌++◌, map, append-nil, append_assoc, Option, none, some,
}
use infinity_autopilot.Text.{Text, codes, join}
use infinity_autopilot.Topic.Parse.{Msg}
use infinity_autopilot.Topic.Render.{
  take, newline, field_line, generate_header, generate_metadata, alias_line, include_line,
}
use infinity_autopilot.Topic.Generate.Described.{Topic}

-- A struct's members.
abbrev pub members : List (Text × Text) → Text
members [] = []
members ((typ, name) ∷ fs) = codes "    " ++ typ ++ codes " " ++ name ++ codes ";\n" ++ members fs

-- A topic's header.
abbrev pub header_text : Topic → Text
header_text (name, m) =
    codes "// Auto-generated from "
    ++ name
    ++ codes
        ".topic - DO NOT EDIT\n//                   Infinity-Autopilot\n#pragma once\n#include <cstdint>\n#include <cstddef>\n\nstruct "
    ++ name
    ++ codes "Data {\n\n"
    ++ members m.fields
    ++ codes "};"

-- The name that the messages of a topic go by.
abbrev pub topic_word : Text → Option Text → Text
topic_word name none = name
topic_word name (some []) = name
topic_word name (some (c ∷ word)) = c ∷ word

abbrev pub queue_text : Option Text → Text
queue_text none = []
queue_text (some []) = []
queue_text (some (c ∷ number)) =
    codes "    static constexpr uint8_t QUEUE_LENGTH = " ++ (c ∷ number) ++ codes ";\n"

abbrev pub metadata_from : (Text → Text) → Text → Option Text → Option Text → Text
metadata_from hexdigest name queue_len topic_name =
    codes "\nstruct "
    ++ name
    ++ codes "Metadata {\n    static constexpr const char* TOPIC_NAME = \""
    ++ topic_word name topic_name
    ++ codes "\";\n    static constexpr size_t TOPIC_SIZE = sizeof("
    ++ name
    ++ codes "Data);\n    static constexpr uint32_t TOPIC_HASH = 0x"
    ++ take 8 (hexdigest (topic_word name topic_name))
    ++ codes ";\n"
    ++ queue_text queue_len
    ++ codes "};"

-- A topic's part of TopicMetadata.h.
abbrev pub metadata_text : (Text → Text) → Topic → Text
metadata_text hexdigest (name, m) = metadata_from hexdigest name m.queue_len m.topic_name

abbrev pub alias_from : Text → Option Text → Text
alias_from name none =
    codes "using " ++ name ++ codes "Topic = SRIMBTopic<" ++ name ++ codes "Data>;"
alias_from name (some []) =
    codes "using " ++ name ++ codes "Topic = SRIMBTopic<" ++ name ++ codes "Data>;"
alias_from name (some (c ∷ number)) =
    codes "using "
    ++ name
    ++ codes "Topic = SRIMBQueueTopic<"
    ++ name
    ++ codes "Data, "
    ++ name
    ++ codes "Metadata::QUEUE_LENGTH>;"

-- A topic's line of TopicTypes.h.
abbrev pub alias_text : Topic → Text
alias_text (name, m) = alias_from name m.queue_len

-- A topic's line of DataTypes.h.
abbrev pub include_text : Topic → Text
include_text (name, m) = codes "#include \"" ++ name ++ codes ".h\""

-- Lines behind another one.
abbrev pub before : List Text → Text
before [] = []
before (l ∷ ls) = 10 ∷ l ++ before ls

pub join-before : (l : Text) (ls : List Text) → join newline (l ∷ ls) ≡ l ++ before ls
join-before l [] = sym (append-nil l)
join-before l (m ∷ ls) = rw (join-before m ls) (append_assoc l newline (m ++ before ls))

before-members :
    (fields : List (Text × Text))
    → before (map field_line fields ++ codes "};" ∷ []) ≡ codes "\n" ++ members fields ++ codes "};"
before-members [] = refl
before-members ((typ, name) ∷ fields) = rw (before-members fields) (simp append_assoc refl)

pub generate_header-header_text :
    (name : Text) (m : Msg) → generate_header name m.fields ≡ header_text (name, m)
unfolding generate_header
generate_header-header_text name m =
    rw (join-before [] (map field_line m.fields ++ codes "};" ∷ []), before-members m.fields)
      (simp append_assoc refl)

pub generate_metadata-metadata_from :
    (hexdigest : Text → Text) (name : Text) (queue_len topic_name : Option Text)
    → generate_metadata hexdigest name queue_len topic_name
      ≡ metadata_from hexdigest name queue_len topic_name
unfolding generate_metadata
generate_metadata-metadata_from hexdigest name none none = simp append_assoc refl
generate_metadata-metadata_from hexdigest name none (some []) = simp append_assoc refl
generate_metadata-metadata_from hexdigest name none (some (c ∷ word)) = simp append_assoc refl
generate_metadata-metadata_from hexdigest name (some []) none = simp append_assoc refl
generate_metadata-metadata_from hexdigest name (some []) (some []) = simp append_assoc refl
generate_metadata-metadata_from hexdigest name (some []) (some (c ∷ word)) = simp append_assoc refl
generate_metadata-metadata_from hexdigest name (some (d ∷ ds)) none = simp append_assoc refl
generate_metadata-metadata_from hexdigest name (some (d ∷ ds)) (some []) = simp append_assoc refl
generate_metadata-metadata_from hexdigest name (some (d ∷ ds)) (some (c ∷ word)) =
    simp append_assoc refl

pub alias_line-alias_text : (name : Text) (m : Msg) → alias_line name m ≡ alias_text (name, m)
unfolding alias_line
alias_line-alias_text name m = by_queue m.queue_len
  where
    by_queue :
        (queue_len : Option Text)
        → alias_line name (record m { queue_len = queue_len }) ≡ alias_from name queue_len
    by_queue none = refl
    by_queue (some []) = refl
    by_queue (some (c ∷ number)) = refl

pub include_line-include_text : (t : Topic) → include_line t.0 ≡ include_text t
unfolding include_line
include_line-include_text (name, m) = refl
