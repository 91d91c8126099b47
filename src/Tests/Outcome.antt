-- ===== src/Tests/Outcome.antt =====
-- The end of a send, and the history after it.
use claw_msg.Prelude.{
  ◌≡◌, ◌≤◌, refl, ◌&&◌, true, false, ◌==◌, none, some, [], ◌∷◌, any, filter, length, All, arith,
}
use claw_msg.Schema.{MessageRow, has_agent, has_message, message_is, Tables}
use claw_msg.Table.{order_desc, insert_desc}
use claw_msg.Table.Order.{IsDescending}
use claw_msg.Exec.{ok}
use claw_msg.OfflineQueue.{created, msg_data}
use claw_msg.Messages.{send_message}
use claw_msg.Messages.Keeping.{IsKept, send_message-IsKept}
use claw_msg.Messages.Outcome.{Ends, refusal, send_message-Ends}
use claw_msg.Messages.History.{
  history_rows, is_wanted, is_own_data, get_messages, history_rows_lem, history_rows_complete,
  get_messages_private,
}
use claw_msg.Tests.Sample.{env, world, tables, to_alice}
use claw_msg.Tests.Messages.{tables-IsWellFormed}

pub sender_known : has_agent tables "b1" ≡ true
unfolding has_agent any ◌==◌
sender_known = refl

id_new : has_message tables "m1" ≡ false
unfolding has_message any
id_new = refl

send_message-Ends_example :
    Ends (refusal env to_alice "b1" world) "b1" world (send_message env to_alice "b1" world)
send_message-Ends_example =
    send_message-Ends env to_alice "b1" world tables-IsWellFormed sender_known id_new

abbrev note : MessageRow
note = record {
  id = "m0";
  from_agent = "a1";
  to_agent = some "b1";
  room_id = none;
  content = "hi";
  content_type = "text/plain";
  reply_to = none;
  created_at = 4;
}

abbrev noted : Tables
noted = record tables { messages = note ∷ [] }

history_rows_example :
    (length (history_rows noted "b1" none (some 3000000) 50) ≤ 50)
    × IsDescending created (history_rows noted "b1" none (some 3000000) 50)
    × All
        (λ m. is_wanted noted "b1" none (some 3000000) m ≡ true)
        (history_rows noted "b1" none (some 3000000) 50)
history_rows_example = history_rows_lem noted "b1" none (some 3000000) 50

one_fits : length (filter (is_wanted noted "b1" none (some 3000000)) noted.messages) ≤ 50
unfolding filter has_agent any ◌==◌
one_fits = omega arith

history_rows_complete_example :
    any (message_is "m0") (history_rows noted "b1" none (some 3000000) 50)
    ≡ any (λ m. message_is "m0" m && is_wanted noted "b1" none (some 3000000) m) noted.messages
history_rows_complete_example =
    history_rows_complete noted "b1" none (some 3000000) 50 "m0" one_fits

history_returns : get_messages noted "b1" none (some 3000000) 50 ≡ ok (msg_data noted note ∷ [])
unfolding get_messages history_rows filter has_agent any ◌==◌ order_desc insert_desc
history_returns = refl

get_messages_private_example :
    All (λ d. is_own_data "b1" d ≡ true) (msg_data noted note ∷ [])
    × (length (msg_data noted note ∷ []) ≤ 50)
get_messages_private_example =
    get_messages_private noted "b1" none (some 3000000) 50 history_returns

send_message-IsKept_example : IsKept (send_message env to_alice "b1" world).1.db
send_message-IsKept_example =
    send_message-IsKept env to_alice "b1" world (tables-IsWellFormed, refl) sender_known id_new
