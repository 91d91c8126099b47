-- ===== src/Tests/Replies.antt =====
-- An ask whose reply comes before it waits, among the replies to another.
use claw_msg.Prelude.{
  All, ◌≡◌, refl, arith, Option, none, some, String, ℕ, zero, List, [], ◌∷◌, suc, ◌/◌, any, ◌==◌,
  true, ◌+◌,
}
use claw_msg.Prelude.Dict.{get}
use claw_msg.Client.Replies.{Message, Future, waiting, resolved, Replies, is_done}
use claw_msg.Client.Replies.Bounds.{IsBounded}
use claw_msg.Client.Replies.Events.{
  Event, asked, heard, ended, run_events, new_replies, run_events-IsBounded,
}
use claw_msg.Client.Replies.FirstReply.{Refines, silent, spec_events}
use claw_msg.Client.Replies.Refinement.{
  InTime, run_events-Refines, ask_gets_first_reply, answer, asks, first_reply,
}
use claw_msg.Client.Replies.Poll.{
  Outside, AskEnd, raises_poll_error, raises_cancelled, await_reply, initial_delay,
}
use claw_msg.Client.Replies.Poll.Ends.{await_reply_ends}

abbrev reply : String → String → Message
reply id to = record { id = some id; from_agent = some "b1"; content = "pong"; reply_to = some to }

abbrev events : List Event
events =
    heard 100 (reply "r1" "m1")
    ∷ asked 200 "m2" 8
    ∷ heard 300 (reply "r2" "m2")
    ∷ asked 400 "m1" 7
    ∷ heard 500 (reply "r3" "m1")
    ∷ ended "m2" 8
    ∷ []

events-InTime : All (InTime 0) events
events-InTime = (
  (omega arith, omega arith),
  (
    (omega arith, omega arith),
    (
      (omega arith, omega arith),
      ((omega arith, omega arith), ((omega arith, omega arith), (tt, tt))),
    ),
  ),
)

run_events-Refines_example :
    Refines "m1" 7 (run_events events new_replies) (spec_events "m1" 7 events silent)
unfolding ◌==◌
run_events-Refines_example =
    run_events-Refines "m1" 7 0 events refl (omega arith) events-InTime
      (tt, (refl, (tt, (refl, (tt, (refl, tt))))))

ask_gets_first_reply_example :
    (run_events events new_replies).futures 7
    ≡ answer (any (asks "m1") events) (first_reply "m1" events)
unfolding ◌==◌ any
ask_gets_first_reply_example =
    ask_gets_first_reply "m1" 7 0 events refl (omega arith) events-InTime
      (tt, (refl, (tt, (refl, (tt, (refl, tt)))))) refl

run_events-IsBounded_example : IsBounded (run_events events new_replies)
run_events-IsBounded_example = run_events-IsBounded events

abbrev outside : Outside
outside = record { poll = λ now. (20, some (reply "r1" "m1" ∷ [])); listener = λ from to. [] }

-- The first poll raises; the listener still brings the reply, and then the error comes out.
abbrev ended_with : Option (AskEnd × Replies) → AskEnd × Future
ended_with none = (raises_cancelled, waiting)
ended_with (some (e, s)) = (e, s.futures 7)

abbrev heard_later : ℕ → ℕ → List (ℕ × Message)
heard_later zero to = []
heard_later (suc from) to = (90, reply "r1" "m1") ∷ []

failed_poll :
    ended_with (
      await_reply
        (record { poll = λ now. (20, none); listener = heard_later })
        2
        "m1"
        7
        0
        30000
        new_replies)
    ≡ (raises_poll_error, resolved (reply "r1" "m1"))
unfolding await_reply claw_msg.Client.Replies.Poll.wait_for_reply
    claw_msg.Client.Replies.Poll.after_poll claw_msg.Client.Replies.Poll.polled_at
    claw_msg.Client.Replies.Poll.after_answer claw_msg.Client.Replies.Poll.hear_until_done ◌==◌
    claw_msg.Client.Replies.register_pending_reply get claw_msg.Client.Replies.prune_early_replies
    claw_msg.Client.Replies.drop_oldest claw_msg.Client.Replies.drop_expired
    claw_msg.Client.Replies.resolve_reply claw_msg.Client.Replies.resolve_to
    claw_msg.Prelude.Dict.put claw_msg.Client.Replies.Events.end_ask
failed_poll = refl

await_reply_ends_example :
    (r : AskEnd × Replies) × (await_reply outside
        (suc (30000 / initial_delay + 1))
        "m1"
        7
        0
        30000
        new_replies
      ≡ some r)
    × (get r.1.pending "m1" ≡ none)
    × (is_done (r.1.futures 7) ≡ true)
await_reply_ends_example = await_reply_ends outside "m1" 7 0 30000 new_replies
