-- ===== src/Topic/Generate.antt =====
-- `main` of scripts/srimb/generate_topic.py: the directories it makes and the files it writes,
-- in order, for the entries that `os.listdir` names.
use infinity_autopilot.Prelude.{
  ℕ, ◌-◌, ◌||◌, List, [], ◌∷◌, ◌++◌, Option, none, some, Bool, true, false, if◌then◌else◌, length,
  ◌==◌,
}
use infinity_autopilot.Text.{Text, codes, ends_with, path_join, join}
use infinity_autopilot.Topic.Parse.{Msg, parse_msg_file}
use infinity_autopilot.Topic.Render.{
  take, newline, generate_header, generate_metadata, alias_line, include_line,
}
pub mod Described
pub mod Names
pub mod Texts
pub mod Files
pub mod Alias

pub data Action : Type 0 where
  make_dirs : Text → Action
  write : Text → Text → Action

-- What was done, and whether an exception ended it.
pub record Outcome : Type 0 where
  pub actions : List Action
  pub raised : Bool

-- The lists that the loop appends to.
pub record Output : Type 0 where
  pub metadata : List Text
  pub aliases : List Text
  pub data_types : List Text
  pub actions : List Action

abbrev pub metadata_head : List Text
metadata_head =
    codes "// Auto-generated from topic folder - DO NOT EDIT"
    ∷ codes "//                   Infinity-Autopilot"
    ∷ codes "#pragma once"
    ∷ codes "#include <cstdint>"
    ∷ codes "#include <cstddef>"
    ∷ codes "#include \"data_types/DataTypes.h\""
    ∷ codes "namespace srimb{"
    ∷ codes ""
    ∷ []

abbrev pub aliases_head : List Text
aliases_head =
    codes "// Auto-generated from topic folder - DO NOT EDIT"
    ∷ codes "//                   Infinity-Autopilot"
    ∷ codes "#pragma once"
    ∷ codes "#include <cstdint>"
    ∷ codes "#include <cstddef>"
    ∷ codes "#include \"SRIMBQueueTopic.hpp\""
    ∷ codes "#include \"SRIMB.hpp\""
    ∷ codes "#include \"data_types/DataTypes.h\""
    ∷ codes "#include \"srimb_topics/TopicMetadata.h\""
    ∷ codes ""
    ∷ codes "namespace srimb {"
    ∷ codes ""
    ∷ []

abbrev pub data_types_head : List Text
data_types_head =
    codes "// Auto-generated from topic folder - DO NOT EDIT"
    ∷ codes "//                   Infinity-Autopilot"
    ∷ codes "#pragma once"
    ∷ []

-- A directory's entry: its name, and its text unless it cannot be opened and decoded.
abbrev pub Entry : Type 0
Entry = Text × Option Text

abbrev pub is_topic : Text → Bool
is_topic fname = ends_with fname (codes ".topic")

-- `fname[:-6]`.
abbrev pub struct_name_of : Text → Text
struct_name_of fname = take (length fname - 6) fname

abbrev pub read : Option Text → Option Msg
read none = none
read (some text) = parse_msg_file text

abbrev pub srimb_topics_dir : Text → Text
srimb_topics_dir output_dir = path_join output_dir (codes "srimb_topics")

abbrev pub data_types_dir : Text → Text
data_types_dir output_dir = path_join output_dir (codes "data_types")

-- After the loop.
unfoldable pub finish : Text → Output → Outcome
finish output_dir out = record {
  actions =
      out.actions
      ++ write (path_join (srimb_topics_dir output_dir) (codes "TopicMetadata.h"))
          (join newline (out.metadata ++ codes "" ∷ codes "}" ∷ []))
        ∷ write (path_join (data_types_dir output_dir) (codes "DataTypes.h"))
            (join newline out.data_types)
        ∷ write (path_join (srimb_topics_dir output_dir) (codes "TopicTypes.h"))
            (join newline (out.aliases ++ codes "" ∷ codes "}" ∷ []))
        ∷ [];
  raised = false;
}

abbrev pub on_read : Option Msg → Output → (Msg → Outcome) → Outcome
on_read none out next = record { actions = out.actions; raised = true }
on_read (some m) out next = next m

module _ (hexdigest : Text → Text) (output_dir : Text) where
  -- The loop's body from the parsed file on.
  unfoldable pub add_topic : Text → Msg → Output → Output
  add_topic struct_name m out = record {
    metadata =
        out.metadata ++ generate_metadata hexdigest struct_name m.queue_len m.topic_name ∷ [];
    data_types = out.data_types ++ include_line struct_name ∷ [];
    aliases = out.aliases ++ alias_line struct_name m ∷ [];
    actions =
        out.actions
        ++ write (path_join (data_types_dir output_dir) (struct_name ++ codes ".h"))
            (generate_header struct_name m.fields)
          ∷ [];
  }

  unfoldable pub loop : List Entry → Output → Outcome
  loop [] out = finish output_dir out
  loop ((fname, content) ∷ entries) out =
      if is_topic fname
      then on_read (read content) out (λ m. loop entries (add_topic (struct_name_of fname) m out))
      else loop entries out

  unfoldable pub main : List Entry → Outcome
  main entries = loop entries (record {
    metadata = metadata_head;
    aliases = aliases_head;
    data_types = data_types_head;
    actions = make_dirs (srimb_topics_dir output_dir) ∷ make_dirs (data_types_dir output_dir) ∷ [];
  })
