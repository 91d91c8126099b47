-- ===== src/Client/Replies/Events.antt =====
-- What happens to the replies of one agent, in the order in which it happens
-- (src/claw_msg/client/agent.py). `ask` registers its future, and takes it back when it ends; the
-- listener and the polls resolve replies.
use claw_msg.Prelude.{ℕ, ◌≡◌, String, List, [], ◌∷◌, if◌then◌else◌, arith}
use claw_msg.Prelude.Dict.{remove}
use claw_msg.Client.Replies.{
  Message, waiting, cancelled, Replies, is_done, set_future, register_pending_reply, resolve_reply,
}
use claw_msg.Client.Replies.Bounds.{
  IsBounded, register_pending_reply-IsBounded, resolve_reply-IsBounded,
}

pub data Event : Type 0 where
  asked : ℕ → String → ℕ → Event
  heard : ℕ → Message → Event
  ended : String → ℕ → Event

-- The `finally` of `ask`.
unfoldable pub end_ask : String → ℕ → Replies → Replies
end_ask message_id f s =
    let s' = record s { pending = remove s.pending message_id } in
    if is_done (s'.futures f) then s' else set_future f cancelled s'

unfoldable pub run_event : Event → Replies → Replies
run_event (asked now message_id f) s = register_pending_reply now message_id f s
run_event (heard now m) s = (resolve_reply now m s).1
run_event (ended message_id f) s = end_ask message_id f s

unfoldable pub run_events : List Event → Replies → Replies
run_events [] s = s
run_events (e ∷ es) s = run_events es (run_event e s)

-- What `__init__` makes.
abbrev pub new_replies : Replies
new_replies = record { pending = []; early = []; futures = λ f. waiting }

pub end_ask-early : (k : String) (f : ℕ) (s : Replies) → (end_ask k f s).early ≡ s.early
unfolding end_ask
end_ask-early k f s = ground arith

run_event-IsBounded : (e : Event) (s : Replies) → IsBounded s → IsBounded (run_event e s)
unfolding run_event
run_event-IsBounded (asked now k f) s h = register_pending_reply-IsBounded now k f s
run_event-IsBounded (heard now m) s h = resolve_reply-IsBounded now m s h
run_event-IsBounded (ended k f) s h = rw end_ask-early h

run_events_keep : (es : List Event) (s : Replies) → IsBounded s → IsBounded (run_events es s)
unfolding run_events
run_events_keep [] s h = h
run_events_keep (e ∷ es) s h = run_events_keep es (run_event e s) (run_event-IsBounded e s h)

-- However many replies come that nobody asks for, and at whatever times, an agent keeps at most
-- `early_reply_max_size` of them.
pub run_events-IsBounded : (es : List Event) → IsBounded (run_events es new_replies)
run_events-IsBounded es = run_events_keep es new_replies (omega arith)
