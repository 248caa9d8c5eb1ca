-- ===== src/Topic/Generate/Described.antt =====
-- What the generator does, described file by file.
use infinity_autopilot.Prelude.{
  ◌≡◌, ap, sym, ◌∙◌, List, [], ◌∷◌, ◌++◌, map, append-nil, append_assoc, Option, none, some, Bool,
  true, false, if◌then◌else◌,
}
use infinity_autopilot.Text.{Text, codes, join, path_join}
use infinity_autopilot.Topic.Parse.{Msg}
use infinity_autopilot.Topic.Render.{
  newline, generate_header, generate_metadata, alias_line, include_line,
}
use infinity_autopilot.Topic.Generate.{
  Action, Outcome, Output, Entry, is_topic, struct_name_of, read, metadata_head, aliases_head,
  data_types_head, srimb_topics_dir, data_types_dir, add_topic, finish, on_read, loop, main,
}

abbrev pub Topic : Type 0
Topic = Text × Msg

-- The topics that are read before the first that cannot be, and whether there is such a one.
abbrev pub first : Text → Option Msg → List Topic × Bool → List Topic × Bool
first name none rest = ([], true)
first name (some m) (ts, b) = ((name, m) ∷ ts, b)

abbrev pub topics : List Entry → List Topic × Bool
topics [] = ([], false)
topics ((fname, content) ∷ entries) =
    let rest = topics entries in
    if is_topic fname then first (struct_name_of fname) (read content) rest else rest

module _ (hexdigest : Text → Text) (output_dir : Text) where
  abbrev pub header_of : Topic → Action
  header_of (name, m) =
      Action.write (path_join (data_types_dir output_dir) (name ++ codes ".h"))
        (generate_header name m.fields)

  abbrev pub metadata_of : Topic → Text
  metadata_of (name, m) = generate_metadata hexdigest name m.queue_len m.topic_name

  abbrev pub alias_of : Topic → Text
  alias_of (name, m) = alias_line name m

  abbrev pub include_of : Topic → Text
  include_of (name, m) = include_line name

  -- The headers, and when all topics are read the three files that name them.
  abbrev pub assembled : List Action → List Text → List Text → List Text → Bool → Outcome
  assembled headers metas aliases includes true = record { actions = headers; raised = true }
  assembled headers metas aliases includes false = record {
    actions =
        headers
        ++ Action.write (path_join (srimb_topics_dir output_dir) (codes "TopicMetadata.h"))
            (join newline (metas ++ codes "" ∷ codes "}" ∷ []))
          ∷ Action.write (path_join (data_types_dir output_dir) (codes "DataTypes.h"))
              (join newline includes)
          ∷ Action.write (path_join (srimb_topics_dir output_dir) (codes "TopicTypes.h"))
              (join newline (aliases ++ codes "" ∷ codes "}" ∷ []))
          ∷ [];
    raised = false;
  }

  abbrev pub described_from : Output → List Topic × Bool → Outcome
  described_from out (ts, b) =
      assembled (out.actions ++ map header_of ts) (out.metadata ++ map metadata_of ts)
        (out.aliases ++ map alias_of ts) (out.data_types ++ map include_of ts) b

  described_from-nil : (out : Output) → finish output_dir out ≡ described_from out ([], false)
  unfolding finish
  described_from-nil out = λ i.
      assembled (sym (append-nil out.actions) i) (sym (append-nil out.metadata) i)
        (sym (append-nil out.aliases) i) (sym (append-nil out.data_types) i) false

  described_from-none :
      (out : Output)
      → record { actions = out.actions; raised = true } ≡ described_from out ([], true)
  described_from-none out = ap (λ acts. assembled acts [] [] [] true) (sym (append-nil out.actions))

  described_from-add_topic :
      (out : Output) (name : Text) (m : Msg) (ts : List Topic) (b : Bool)
      → described_from (add_topic hexdigest output_dir name m out) (ts, b)
        ≡ described_from out ((name, m) ∷ ts, b)
  unfolding add_topic
  described_from-add_topic out name m ts b = λ i.
      assembled (append_assoc out.actions (header_of (name, m) ∷ []) (map header_of ts) i)
        (append_assoc out.metadata (metadata_of (name, m) ∷ []) (map metadata_of ts) i)
        (append_assoc out.aliases (alias_of (name, m) ∷ []) (map alias_of ts) i)
        (append_assoc out.data_types (include_of (name, m) ∷ []) (map include_of ts) i) b

  loop-step :
      (name : Text) (t : Bool) (r : Option Msg) (out : Output) (next : Output → Outcome)
      (rest : List Topic × Bool)
      → ((out : Output) → next out ≡ described_from out rest)
      → (if t
          then on_read r out (λ m. next (add_topic hexdigest output_dir name m out))
          else next out)
        ≡ described_from out (if t then first name r rest else rest)
  loop-step name true none out next rest h = described_from-none out
  loop-step name true (some m) out next rest h =
      h (add_topic hexdigest output_dir name m out)
      ∙ described_from-add_topic out name m rest.0 rest.1
  loop-step name false r out next rest h = h out

  loop-described :
      (entries : List Entry) (out : Output)
      → loop hexdigest output_dir entries out ≡ described_from out (topics entries)
  unfolding loop
  loop-described [] out = described_from-nil out
  loop-described ((fname, content) ∷ entries) out =
      loop-step (struct_name_of fname) (is_topic fname) (read content) out
        (loop hexdigest output_dir entries) (topics entries) (loop-described entries)

  -- The loop as a map over the topics.
  pub main-described :
      (entries : List Entry)
      → main hexdigest output_dir entries
        ≡ described_from
            (record {
              metadata = metadata_head;
              aliases = aliases_head;
              data_types = data_types_head;
              actions =
                  Action.make_dirs (srimb_topics_dir output_dir)
                  ∷ Action.make_dirs (data_types_dir output_dir)
                  ∷ [];
            })
            (topics entries)
  unfolding main
  main-described entries = loop-described entries _
