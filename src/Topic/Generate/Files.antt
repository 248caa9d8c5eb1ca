-- ===== src/Topic/Generate/Files.antt =====
-- The files that scripts/srimb/generate_topic.py writes, each as one text.
use infinity_autopilot.Prelude.{
  ◌≡◌, refl, ap, sym, ◌∙◌, List, [], ◌∷◌, ◌++◌, map, append-nil, append_assoc, Bool, true, false,
  if◌then◌else◌,
}
use infinity_autopilot.Text.{Text, codes, join, path_join}
use infinity_autopilot.Topic.Render.{newline}
use infinity_autopilot.Topic.Generate.{
  Action, Outcome, Entry, metadata_head, aliases_head, data_types_head, srimb_topics_dir,
  data_types_dir, main,
}
use infinity_autopilot.Topic.Generate.Described.{
  Topic, topics, header_of, metadata_of, alias_of, include_of, described_from, main-described,
}
use infinity_autopilot.Topic.Generate.Names.{stems, topics-stems}
use infinity_autopilot.Topic.Generate.Texts.{
  header_text, metadata_text, alias_text, include_text, before, join-before,
  generate_header-header_text, generate_metadata-metadata_from, alias_line-alias_text,
  include_line-include_text,
}

-- The texts of the topics, each on a new line.
abbrev pub each : (Topic → Text) → List Topic → Text
each text [] = []
each text (t ∷ ts) = codes "\n" ++ text t ++ each text ts

abbrev pub metadata_file : (Text → Text) → List Topic → Text
metadata_file hexdigest ts =
    codes
      "// Auto-generated from topic folder - DO NOT EDIT\n//                   Infinity-Autopilot\n#pragma once\n#include <cstdint>\n#include <cstddef>\n#include \"data_types/DataTypes.h\"\nnamespace srimb{\n"
    ++ each (metadata_text hexdigest) ts
    ++ codes "\n\n}"

abbrev pub data_types_file : List Topic → Text
data_types_file ts =
    codes
      "// Auto-generated from topic folder - DO NOT EDIT\n//                   Infinity-Autopilot\n#pragma once"
    ++ each include_text ts

abbrev pub aliases_file : List Topic → Text
aliases_file ts =
    codes
      "// Auto-generated from topic folder - DO NOT EDIT\n//                   Infinity-Autopilot\n#pragma once\n#include <cstdint>\n#include <cstddef>\n#include \"SRIMBQueueTopic.hpp\"\n#include \"SRIMB.hpp\"\n#include \"data_types/DataTypes.h\"\n#include \"srimb_topics/TopicMetadata.h\"\n\nnamespace srimb {\n"
    ++ each alias_text ts
    ++ codes "\n\n}"

before-each :
    (f g : Topic → Text)
    → ((t : Topic) → f t ≡ g t)
    → (ts : List Topic) (end : List Text) → before (map f ts ++ end) ≡ each g ts ++ before end
before-each f g h [] end = refl
before-each f g h (t ∷ ts) end =
    rw (h t, before-each f g h ts end) (ap (λ r. 10 ∷ r) (sym (append_assoc (g t) (each g ts) _)))

map-≡ : {A B : Type 0} (f g : A → B) → ((x : A) → f x ≡ g x) → (xs : List A) → map f xs ≡ map g xs
map-≡ f g h [] = refl
map-≡ f g h (x ∷ xs) = rw (h x, map-≡ f g h xs) refl

module _ (hexdigest : Text → Text) (output_dir : Text) where
  abbrev pub in_dir : Text → Text → Text
  in_dir dir file = path_join (path_join output_dir dir) file

  -- The header of a topic, written.
  abbrev pub written : Topic → Action
  written (name, m) =
      Action.write (in_dir (codes "data_types") (name ++ codes ".h")) (header_text (name, m))

  -- The directories and the headers, and when all topics are read the three files.
  abbrev pub files_from : List Topic → Bool → Outcome
  files_from ts failed = record {
    actions =
        Action.make_dirs (path_join output_dir (codes "srimb_topics"))
        ∷ Action.make_dirs (path_join output_dir (codes "data_types"))
        ∷ (map written ts
            ++ (if failed
                then []
                else Action.write (in_dir (codes "srimb_topics") (codes "TopicMetadata.h"))
                    (metadata_file hexdigest ts)
                  ∷ Action.write (in_dir (codes "data_types") (codes "DataTypes.h"))
                      (data_types_file ts)
                  ∷ Action.write (in_dir (codes "srimb_topics") (codes "TopicTypes.h"))
                      (aliases_file ts)
                  ∷ []));
    raised = failed;
  }

  metadata_file_lem :
      (ts : List Topic)
      → join newline
          (metadata_head ++ map (metadata_of hexdigest output_dir) ts ++ codes "" ∷ codes "}" ∷ [])
        ≡ metadata_file hexdigest ts
  metadata_file_lem ts =
      rw
        (
          join-before [] (map (metadata_of hexdigest output_dir) ts ++ codes "" ∷ codes "}" ∷ []),
          before-each (metadata_of hexdigest output_dir) (metadata_text hexdigest)
              (λ t. generate_metadata-metadata_from hexdigest t.0 t.1.queue_len t.1.topic_name) ts
              (codes "" ∷ codes "}" ∷ []),
        )
        refl

  data_types_file_lem :
      (ts : List Topic)
      → join newline (data_types_head ++ map (include_of hexdigest output_dir) ts)
        ≡ data_types_file ts
  data_types_file_lem ts =
      ap (λ l. join newline (data_types_head ++ l))
        (sym (append-nil (map (include_of hexdigest output_dir) ts)))
      ∙ rw
          (
            join-before (codes "#pragma once") (map (include_of hexdigest output_dir) ts ++ []),
            before-each (include_of hexdigest output_dir) include_text include_line-include_text ts
                [],
            append-nil (each include_text ts),
          )
          refl

  aliases_file_lem :
      (ts : List Topic)
      → join newline
          (aliases_head ++ map (alias_of hexdigest output_dir) ts ++ codes "" ∷ codes "}" ∷ [])
        ≡ aliases_file ts
  aliases_file_lem ts =
      rw
        (
          join-before [] (map (alias_of hexdigest output_dir) ts ++ codes "" ∷ codes "}" ∷ []),
          before-each (alias_of hexdigest output_dir) alias_text
              (λ t. alias_line-alias_text t.0 t.1) ts (codes "" ∷ codes "}" ∷ []),
        )
        refl

  header_of-written : (t : Topic) → header_of hexdigest output_dir t ≡ written t
  header_of-written (name, m) =
      ap (Action.write (in_dir (codes "data_types") (name ++ codes ".h")))
        (generate_header-header_text name m)

  described_from-files_from :
      (ts : List Topic) (failed : Bool)
      → described_from hexdigest output_dir
          (record {
            metadata = metadata_head;
            aliases = aliases_head;
            data_types = data_types_head;
            actions =
                Action.make_dirs (srimb_topics_dir output_dir)
                ∷ Action.make_dirs (data_types_dir output_dir)
                ∷ [];
          })
          (ts, failed)
        ≡ files_from ts failed
  described_from-files_from ts true =
      rw (map-≡ _ written header_of-written ts, append-nil (map written ts)) refl
  described_from-files_from ts false =
      rw
        (
          map-≡ _ written header_of-written ts,
          metadata_file_lem ts,
          data_types_file_lem ts,
          aliases_file_lem ts,
        )
        refl

  -- Running the generator makes the directories srimb_topics and data_types in the output directory,
  -- then writes in data_types the header of every topic whose file is read before the first that
  -- cannot be, in the directory's order: the struct, with a member for each field. When there is none
  -- that cannot be read, it writes TopicMetadata.h in srimb_topics, with each topic's name, or the
  -- struct's when none or an empty one is given, the size, the first eight characters of the name's
  -- digest and the queue's length where one is given, DataTypes.h in data_types, which includes the
  -- headers, and TopicTypes.h in srimb_topics, with an alias for each topic, of a queue's type where a
  -- length is given; otherwise it raises an exception. A topic's struct is named by
  -- what stands in front of a last ".topic" in the entry's name; other entries are passed over.
  pub main-files_from :
      (entries : List Entry)
      → main hexdigest output_dir entries
        ≡ (let (ts, failed) = stems entries in files_from ts failed)
  main-files_from entries =
      main-described hexdigest output_dir entries
      ∙ described_from-files_from (topics entries).0 (topics entries).1
      ∙ ap (λ (r : List Topic × Bool). files_from r.0 r.1) (topics-stems entries)
