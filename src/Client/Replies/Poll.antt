-- ===== src/Client/Replies/Poll.antt =====
-- `ask` after its message is sent, and `_wait_for_reply` beside it (src/claw_msg/client/agent.py).
-- The loop runs on fuel, one for each poll. What the broker answers to a poll, how long that
-- takes, and what the listener hears meanwhile are parameters.
pub mod Ends
use claw_msg.Prelude.{
  ℕ, zero, suc, ◌+◌, ◌*◌, ◌/◌, ◌≤◌, ◌<◌, ◌≡◌, refl, String, true, false, Option, none, some, List,
  [], ◌∷◌, leb, min, opt_eq, arith, if◌then◌else◌, Bool-cases, inl, inr,
}
use claw_msg.Prelude.Dict.{get}
use claw_msg.Client.Replies.{
  Message, Future, waiting, cancelled, resolved, Replies, is_done, register_pending_reply,
  resolve_reply,
}
use claw_msg.Client.Replies.Events.{end_ask}
use claw_msg.Client.Replies.Ask.{get-remove_self}

-- The time that a poll takes and the message history that it gets, or `none` when it raises; and
-- what the listener hears between two times.
pub record Outside : Type 0 where
  pub poll : ℕ → ℕ × Option (List Message)
  pub listener : ℕ → ℕ → List (ℕ × Message)

-- How the wait ends: the future is done, or the time is over; `poll_failed` is either of them after
-- the task of the polls has raised.
pub data WaitEnd : Type 0 where
  answered timed_out poll_failed : WaitEnd

-- `_REPLY_POLL_INITIAL_DELAY_SECONDS` and `_REPLY_POLL_MAX_DELAY_SECONDS`
abbrev pub initial_delay : ℕ
initial_delay = 500

abbrev pub max_delay : ℕ
max_delay = 5000

-- The `for` loop: the first message that replies to this one.
unfoldable pub resolve_first : String → ℕ → List Message → Replies → Replies
resolve_first message_id now [] s = s
resolve_first message_id now (m ∷ ms) s =
    let rest = resolve_first message_id now ms s in
    if opt_eq m.reply_to message_id then (resolve_reply now m s).1 else rest

-- The listener's task, up to the message at which the future is done.
unfoldable pub hear_until_done : ℕ → List (ℕ × Message) → Replies → Replies
hear_until_done f [] s = s
hear_until_done f ((now, m) ∷ ms) s =
    let rest = hear_until_done f ms (resolve_reply now m s).1 in
    if is_done (s.futures f) then s else rest

module _ (outside : Outside) (message_id : String) (f deadline : ℕ) where
  -- What the listener hears between two times.
  abbrev pub meanwhile : ℕ → ℕ → Replies → Replies
  meanwhile from until s = hear_until_done f (outside.listener from until) s

  -- The end of a round: the sleep, while the listener goes on; `next` goes round the loop.
  unfoldable pub after_messages :
      ℕ → ℕ → (ℕ → Replies → Option (WaitEnd × Replies)) → Replies → Option (WaitEnd × Replies)
  after_messages now delay next s = elim (is_done (s.futures f)) [
    | true ↦ some (answered, s)
    | false ↦ next (now + delay) (meanwhile now (min (now + delay) deadline) s)
  ]

  -- `wait_for` cancels the polls at the deadline; a future that is done by then is returned.
  abbrev pub at_deadline : Replies → WaitEnd × Replies
  at_deadline s = (if is_done (s.futures f) then answered else timed_out, s)

  -- A poll that raises ends the polls and not the wait: that goes on until the listener has resolved
  -- the future or the time is over, and only then `await poll_task` raises.
  unfoldable pub after_answer :
      Option (List Message)
      → ℕ
      → ℕ
      → (ℕ → Replies → Option (WaitEnd × Replies))
      → Replies
      → Option (WaitEnd × Replies)
  after_answer none now delay next s = some (poll_failed, meanwhile now deadline s)
  after_answer (some ms) now delay next s =
      after_messages now delay next (resolve_first message_id now ms s)

  -- A future that the listener has resolved ends the wait before the answer is read.
  unfoldable pub polled_at :
      ℕ
      → ℕ
      → (ℕ → Replies → Option (WaitEnd × Replies))
      → Option (List Message)
      → Replies
      → Option (WaitEnd × Replies)
  polled_at now delay next o s = elim (is_done (s.futures f)) [
    | true ↦ some (answered, s)
    | false ↦ after_answer o now delay next s
  ]

  -- The answer to a poll, which comes in time or not.
  unfoldable pub after_poll :
      ℕ × Option (List Message)
      → ℕ
      → ℕ
      → (ℕ → Replies → Option (WaitEnd × Replies))
      → Replies
      → Option (WaitEnd × Replies)
  after_poll (elapsed, o) now delay next s =
      let t = now + elapsed in
      elim (leb deadline t) [
        | true ↦ some (at_deadline (meanwhile now deadline s))
        | false ↦ polled_at t delay next o (meanwhile now t s)
      ]

  -- `while not pending_reply.done()`, under the `wait_for` of `ask`.
  unfoldable pub wait_for_reply : ℕ → ℕ → ℕ → Replies → Option (WaitEnd × Replies)
  wait_for_reply zero now delay s = none
  wait_for_reply (suc n) now delay s =
      let next = wait_for_reply n in
      elim (is_done (s.futures f)) [
        | true ↦ some (answered, s)
        | false ↦ elim (leb deadline now) [
          | true ↦ some (timed_out, s)
          | false ↦
              after_poll (outside.poll now) now delay
                (λ t s'. next t (min (delay * 2) max_delay) s') s
        ]
      ]

-- What `ask` does: it returns a message, or raises `TimeoutError`, what the polls raised, or
-- `CancelledError`.
pub data AskEnd : Type 0 where
  replied : Message → AskEnd
  raises_timeout raises_poll_error raises_cancelled : AskEnd

abbrev pub ask_end : WaitEnd → Future → AskEnd
ask_end poll_failed v = raises_poll_error
ask_end timed_out v = raises_timeout
ask_end answered (resolved m) = replied m
ask_end answered cancelled = raises_cancelled
ask_end answered waiting = raises_cancelled

abbrev pub finish : String → ℕ → Option (WaitEnd × Replies) → Option (AskEnd × Replies)
finish message_id f none = none
finish message_id f (some (e, s)) = some (ask_end e (s.futures f), end_ask message_id f s)

-- From `_register_pending_reply` to the end of the `finally`.
unfoldable pub await_reply : Outside → ℕ → String → ℕ → ℕ → ℕ → Replies → Option (AskEnd × Replies)
await_reply outside fuel message_id f now timeout s = finish message_id f (
    wait_for_reply outside message_id f (now + timeout) fuel now initial_delay
      (register_pending_reply now message_id f s))
