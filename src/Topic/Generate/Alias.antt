-- ===== src/Topic/Generate/Alias.antt =====
-- When the generator makes a queue topic.
use infinity_autopilot.Prelude.{◌≡◌, refl, ap, ◌∙◌, [], ◌∷◌, Option, none, some, if◌then◌else◌}
use infinity_autopilot.Text.{Text, file_lines}
use infinity_autopilot.Topic.Parse.{Msg, parse_msg_file}
use infinity_autopilot.Topic.Parse.Queue.{any_queue, is_some, parse_msg_file-queue_len}
use infinity_autopilot.Topic.Parse.Words.{IsWordOption, parse_msg_file-IsMsg}
use infinity_autopilot.Topic.Render.{is_truthy, queue_alias, plain_alias, alias_line}

is_truthy-word : (v : Option Text) → IsWordOption v → is_truthy v ≡ is_some v
is_truthy-word none h = refl
is_truthy-word (some []) h = absurd h
is_truthy-word (some (_ ∷ _)) h = refl

-- When a topic's file can be read, its alias is a queue topic exactly when some stripped line of
-- the file begins with QUEUE_LENGTH, and a plain topic otherwise.
pub alias_line-parse_msg_file :
    (struct_name text : Text) (m : Msg)
    → parse_msg_file text ≡ some m
    → alias_line struct_name m
      ≡ (if any_queue (file_lines text) then queue_alias struct_name else plain_alias struct_name)
unfolding alias_line
alias_line-parse_msg_file struct_name text m e =
    ap (λ b. if b then queue_alias struct_name else plain_alias struct_name)
      (is_truthy-word m.queue_len (parse_msg_file-IsMsg text m e).1
        ∙ parse_msg_file-queue_len text m e)
