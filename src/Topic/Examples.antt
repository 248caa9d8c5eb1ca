-- ===== src/Topic/Examples.antt =====
-- The generator on the topics of topic/: tests, and the theorems at concrete inputs.
use infinity_autopilot.Prelude.{◌≡◌, refl, List, [], ◌∷◌, ◌++◌, some, true, false, if◌then◌else◌}
use infinity_autopilot.Text.{Text, codes, is_space, IsWord-of_is_word, file_lines}
use infinity_autopilot.Topic.Parse.{
  Msg, no_msg, type_map, parse_stripped, parse_line, parse_lines, parse_msg_file,
}
use infinity_autopilot.Topic.Parse.RoundTrip.{
  Decl, file_of, meaning, AllDecl, parse_msg_file-file_of,
}
use infinity_autopilot.Topic.Parse.Errors.{is_none, any_bare, parse_msg_file-is_none}
use infinity_autopilot.Topic.Parse.Words.{IsMsg, parse_msg_file-IsMsg}
use infinity_autopilot.Topic.Parse.Queue.{any_queue}
use infinity_autopilot.Topic.Render.{generate_header, alias_line, queue_alias, plain_alias}
use infinity_autopilot.Topic.Generate.{Action, Entry, add_topic, loop, main}
use infinity_autopilot.Topic.Generate.Files.{files_from, main-files_from}
use infinity_autopilot.Topic.Generate.Alias.{alias_line-parse_msg_file}

-- topic/RawAcc.topic, shortened.
abbrev raw_acc : List Decl
raw_acc =
    Decl.queue (codes "8")
    ∷ Decl.topic (codes "raw_acc_topic")
    ∷ Decl.blank
    ∷ Decl.field (codes "uint64") (codes "timestamp")
    ∷ Decl.comment (codes " axes")
    ∷ Decl.field (codes "float32") (codes "x")
    ∷ []

abbrev raw_acc_text : Text
raw_acc_text =
    codes "QUEUE_LENGTH 8\r\nTOPIC_NAME raw_acc_topic\n\n  uint64\ttimestamp\n# axes\nfloat32 x  y"

abbrev raw_acc_msg : Msg
raw_acc_msg = record {
  fields = (codes "uint64_t", codes "timestamp") ∷ (codes "float", codes "x") ∷ [];
  queue_len = some (codes "8");
  topic_name = some (codes "raw_acc_topic");
}

raw_acc_parsed : parse_msg_file raw_acc_text ≡ some raw_acc_msg
unfolding is_space type_map parse_stripped parse_line parse_lines parse_msg_file
raw_acc_parsed = refl

raw_acc-AllDecl : AllDecl raw_acc
unfolding is_space
raw_acc-AllDecl = (
  IsWord-of_is_word (codes "8") refl,
  (
    IsWord-of_is_word (codes "raw_acc_topic") refl,
    (
      tt,
      (
        (
          IsWord-of_is_word (codes "uint64") refl,
          IsWord-of_is_word (codes "timestamp") refl,
          refl,
          refl,
          refl,
        ),
        (
          ((refl, refl, (refl, refl, (refl, refl, (refl, refl, (refl, refl, tt)))))),
          (
            (
              IsWord-of_is_word (codes "float32") refl,
              IsWord-of_is_word (codes "x") refl,
              refl,
              refl,
              refl,
            ),
            tt,
          ),
        ),
      ),
    ),
  ),
)

raw_acc-meaning : meaning no_msg raw_acc ≡ raw_acc_msg
unfolding type_map
raw_acc-meaning = refl

parse_msg_file-file_of_example : parse_msg_file (file_of raw_acc) ≡ some (meaning no_msg raw_acc)
parse_msg_file-file_of_example = parse_msg_file-file_of raw_acc raw_acc-AllDecl

parse_msg_file-is_none_example :
    is_none (parse_msg_file (codes "uint8 id\nTOPIC_NAME\n"))
    ≡ any_bare (file_lines (codes "uint8 id\nTOPIC_NAME\n"))
parse_msg_file-is_none_example = parse_msg_file-is_none (codes "uint8 id\nTOPIC_NAME\n")

bare_name : any_bare (file_lines (codes "uint8 id\nTOPIC_NAME\n")) ≡ true
unfolding is_space
bare_name = refl

parse_msg_file-IsMsg_example : IsMsg raw_acc_msg
parse_msg_file-IsMsg_example = parse_msg_file-IsMsg raw_acc_text raw_acc_msg raw_acc_parsed

alias_line-parse_msg_file_example : alias_line (codes "RawAcc") raw_acc_msg ≡ (
    if any_queue (file_lines raw_acc_text)
    then queue_alias (codes "RawAcc")
    else plain_alias (codes "RawAcc"))
alias_line-parse_msg_file_example =
    alias_line-parse_msg_file (codes "RawAcc") raw_acc_text raw_acc_msg raw_acc_parsed

-- Stands for the digest.
abbrev digest : Text → Text
digest name = codes "0123456789abcdef" ++ name

abbrev directory : List Entry
directory =
    (codes "RawAcc.topic", some raw_acc_text)
    ∷ (codes "README.md", some (codes "topics"))
    ∷ (codes "Bad.topic", some (codes "QUEUE_LENGTH"))
    ∷ (codes "Later.topic", some (codes "uint8 id"))
    ∷ []

-- A directory of which all topics can be read.
abbrev read_directory : List Entry
read_directory =
    (codes "RawAcc.topic", some raw_acc_text) ∷ (codes "README.md", some (codes "topics")) ∷ []

main-files_from_example :
    main digest (codes "out") read_directory
    ≡ files_from digest (codes "out") ((codes "RawAcc", raw_acc_msg) ∷ []) false
unfolding is_space type_map parse_stripped parse_line parse_lines parse_msg_file
main-files_from_example = main-files_from digest (codes "out") read_directory

-- The second topic's failure leaves the first header written.
failing_run : main digest (codes "out") directory ≡ record {
  actions =
      Action.make_dirs (codes "out/srimb_topics")
      ∷ Action.make_dirs (codes "out/data_types")
      ∷ Action.write
          (codes "out/data_types/RawAcc.h")
          (generate_header (codes "RawAcc") raw_acc_msg.fields)
      ∷ [];
  raised = true;
}
unfolding is_space type_map parse_stripped parse_line parse_lines parse_msg_file add_topic loop main
failing_run = refl
