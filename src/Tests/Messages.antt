-- ===== src/Tests/Messages.antt =====
-- Sends of one message.
use claw_msg.Prelude.{
  ◌≡◌, ◌≢◌, ◌↔◌, ◌⊎◌, refl, String, true, false, none, some, ◌==◌, All, any, filter, nocase_eq,
}
use claw_msg.Prelude.Dict.{get, put, remove}
use claw_msg.Schema.{
  IsWellFormed, has_message, has_agent, has_room, has_member, has_contact, has_queued, queue_refers,
  message_fits, member_refers, contact_refers, commit,
}
use claw_msg.Table.{find_first, count_where}
use claw_msg.RateLimit.{allow, new_bucket}
use claw_msg.Broker.{
  send_to_agent, send_each, unregister_each, unregister, remove_first, put_or_delete,
}
use claw_msg.OfflineQueue.{enqueue}
use claw_msg.Exec.{MsgData, message_receive, ok, World}
use claw_msg.MessageValidation.{resolve_agent_target, get_message_target_error, name_is}
use claw_msg.MessageValidation.Targets.{is_named, resolve_found, resolve_missing}
use claw_msg.MessageValidation.Permission.{accepts_dm, accepts_post, get_message_target_error_lem}
use claw_msg.Messages.{
  send_message, members_of, store_message, msg_data_of, deliver, deliver_direct, deliver_room,
  deliver_each, deliver_one,
}
use claw_msg.Messages.Handed.{Handed}
use claw_msg.Messages.Recipients.{recipients, send_message_hands_over}
use claw_msg.Tests.Sample.{env, world, tables, to_alice}

abbrev reply : MsgData
reply = record {
  id = "m1";
  from_agent = "b1";
  from_name = some "Bob";
  from_owner = none;
  to_agent = some "a1";
  room_id = some "r1";
  content = "hello";
  content_type = "text/plain";
  reply_to = none;
  created_at = some 5;
}

abbrev after : World
after = (send_message env to_alice "b1" world).1

send_returns : send_message env to_alice "b1" world ≡ (ok reply, after)
unfolding send_message store_message msg_data_of deliver deliver_direct deliver_room deliver_each
    deliver_one send_to_agent send_each unregister_each unregister remove_first put_or_delete
    enqueue allow get put remove resolve_agent_target get_message_target_error has_message has_agent
    has_room has_member has_contact has_queued queue_refers message_fits commit find_first
    members_of any filter nocase_eq ◌==◌ new_bucket
send_returns = refl

pub tables-IsWellFormed : IsWellFormed tables
unfolding has_agent has_room member_refers contact_refers any ◌==◌
tables-IsWellFormed = record {
  messages_refer = tt;
  rooms_refer = (refl, tt);
  members_refer = (refl, (refl, (refl, tt)));
  queue_refers_all = tt;
  contacts_refer = (refl, tt);
}

send_message_hands_over_example :
    (has_message after.db.tables reply.id ≡ true)
    × All
        (λ k. Handed env reply.id (message_receive reply) k after)
        (recipients "b1" reply.to_agent reply.room_id tables)
send_message_hands_over_example =
    send_message_hands_over env to_alice "b1" world tables-IsWellFormed send_returns

target_error_example :
    (get_message_target_error "c1" (some "a1") none tables ≡ none)
    ↔ ((accepts_dm tables "c1" (some "a1") ≡ true) × (accepts_post tables "c1" none ≡ true))
target_error_example = get_message_target_error_lem "c1" (some "a1") none tables

found_by_name : resolve_agent_target "ALICE" tables ≡ some "a1"
unfolding resolve_agent_target find_first filter nocase_eq ◌==◌
found_by_name = refl

resolve_found_example :
    (has_agent tables "a1" ≡ true)
    × ((◌≡◌ {A = String} "a1" "ALICE")
        ⊎ ((has_agent tables "ALICE" ≡ false)
            × (count_where (name_is "ALICE") tables.agents ≡ 1)
            × (any (is_named "a1" "ALICE") tables.agents ≡ true)))
resolve_found_example = resolve_found "ALICE" tables found_by_name

resolve_missing_example :
    (resolve_agent_target "dave" tables ≡ none)
    ↔ ((has_agent tables "dave" ≡ false) × (count_where (name_is "dave") tables.agents ≢ 1))
resolve_missing_example = resolve_missing "dave" tables
