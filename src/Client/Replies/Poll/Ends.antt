-- ===== src/Client/Replies/Poll/Ends.antt =====
-- `ask` ends (src/claw_msg/client/agent.py).
use claw_msg.Prelude.{
  ℕ, zero, suc, ◌+◌, ◌*◌, ◌/◌, ◌≤◌, ◌<◌, ◌≡◌, refl, String, true, Option, none, some, List, leb,
  min, arith, Bool-cases, inl, inr,
}
use claw_msg.Prelude.Dict.{get}
use claw_msg.Client.Replies.{Message, Replies, is_done, register_pending_reply}
use claw_msg.Client.Replies.Events.{end_ask}
use claw_msg.Client.Replies.Ask.{get-remove_self}
use claw_msg.Client.Replies.Poll.{
  Outside, WaitEnd, answered, timed_out, initial_delay, max_delay, resolve_first, after_messages,
  after_answer, polled_at, after_poll, wait_for_reply, AskEnd, ask_end, await_reply,
}

module _ (outside : Outside) (message_id : String) (f deadline : ℕ) where
  after_messages_ends :
      (now delay : ℕ) (next : ℕ → Replies → Option (WaitEnd × Replies)) (s : Replies)
      → ((t : ℕ) (s' : Replies) → now + delay ≤ t → (r : WaitEnd × Replies) × (next t s' ≡ some r))
      → (r : WaitEnd × Replies) × (after_messages outside message_id f deadline now delay next s
          ≡ some r)
  unfolding after_messages
  after_messages_ends now delay next s h = elim (Bool-cases (is_done (s.futures f))) [
    | inl d ↦ rw (after_messages, d) ((answered, s), refl)
    | inr d ↦ rw (after_messages, d) (h _ _ (omega arith))
  ]

  after_answer_ends :
      (o : Option (List Message)) (now delay : ℕ) (next : ℕ → Replies → Option (WaitEnd × Replies))
      (s : Replies)
      → ((t : ℕ) (s' : Replies) → now + delay ≤ t → (r : WaitEnd × Replies) × (next t s' ≡ some r))
      → (r : WaitEnd × Replies) × (after_answer outside message_id f deadline o now delay next s
          ≡ some r)
  unfolding after_answer
  after_answer_ends none now delay next s h = (_, refl)
  after_answer_ends (some ms) now delay next s h =
      after_messages_ends now delay next (resolve_first message_id now ms s) h

  polled_at_ends :
      (now delay : ℕ) (next : ℕ → Replies → Option (WaitEnd × Replies)) (o : Option (List Message))
      (s : Replies)
      → ((t : ℕ) (s' : Replies) → now + delay ≤ t → (r : WaitEnd × Replies) × (next t s' ≡ some r))
      → (r : WaitEnd × Replies) × (polled_at outside message_id f deadline now delay next o s
          ≡ some r)
  unfolding polled_at
  polled_at_ends now delay next o s h = elim (Bool-cases (is_done (s.futures f))) [
    | inl d ↦ rw (polled_at, d) ((answered, s), refl)
    | inr d ↦ rw (polled_at, d) (after_answer_ends o now delay next s h)
  ]

  -- A poll ends if every later round does.
  after_poll_ends :
      (p : ℕ × Option (List Message)) (now delay : ℕ)
      (next : ℕ → Replies → Option (WaitEnd × Replies)) (s : Replies)
      → ((t : ℕ) (s' : Replies) → now + delay ≤ t → (r : WaitEnd × Replies) × (next t s' ≡ some r))
      → (r : WaitEnd × Replies) × (after_poll outside message_id f deadline p now delay next s
          ≡ some r)
  unfolding after_poll
  after_poll_ends (elapsed, o) now delay next s h =
      elim (Bool-cases (leb deadline (now + elapsed))) [
        | inl e ↦ rw (after_poll, e) (_, refl)
        | inr e ↦
            rw (after_poll, e)
              (polled_at_ends (now + elapsed) delay next o _ (λ t s' late. h t s' (omega arith)))
      ]

  round_ends :
      (n now delay : ℕ) (s : Replies)
      → (now < deadline
          → (r : WaitEnd × Replies) × (after_poll outside message_id f deadline
                (outside.poll now)
                now
                delay
                (λ t s'.
                  wait_for_reply outside message_id f deadline n t (min (delay * 2) max_delay) s')
                s
              ≡ some r))
      → (r : WaitEnd × Replies) × (wait_for_reply outside message_id f deadline (suc n) now delay s
          ≡ some r)
  unfolding wait_for_reply
  round_ends n now delay s later = elim (Bool-cases (is_done (s.futures f))) [
    | inl e ↦ rw (wait_for_reply, e) ((answered, s), refl)
    | inr e ↦ elim (Bool-cases (leb deadline now)) [
      | inl late ↦ rw (wait_for_reply, e, late) ((timed_out, s), refl)
      | inr early ↦ rw (wait_for_reply, e, early) (later (ground arith))
    ]
  ]

  -- Each round takes at least the initial delay.
  wait_for_reply_ends :
      (n now delay : ℕ) (s : Replies)
      → deadline ≤ now + n * initial_delay
      → initial_delay ≤ delay
      → (r : WaitEnd × Replies) × (wait_for_reply outside message_id f deadline (suc n) now delay s
          ≡ some r)
  wait_for_reply_ends zero now delay s h d =
      round_ends zero now delay s (λ before. absurd (omega arith))
  wait_for_reply_ends (suc n) now delay s h d = round_ends (suc n) now delay s (λ before.
      after_poll_ends (outside.poll now) now delay _ s (λ t s' after.
        wait_for_reply_ends n t (min (delay * 2) max_delay) s' (omega arith) (omega arith)))

end_ask_lem :
    (k : String) (f : ℕ) (s : Replies)
    → (get (end_ask k f s).pending k ≡ none) × (is_done ((end_ask k f s).futures f) ≡ true)
unfolding end_ask
end_ask_lem k f s = elim (Bool-cases (is_done (s.futures f))) [
  | inl e ↦ rw e (get-remove_self s.pending k, e)
  | inr e ↦ rw e (get-remove_self s.pending k, ground arith)
]

-- `ask` ends, whatever the broker answers to the polls and the listener hears: within one round for
-- each 500 ms of the timeout, and two more, it returns or raises. It leaves no entry for its
-- message, and its future is done.
pub await_reply_ends :
    (outside : Outside) (message_id : String) (f now timeout : ℕ) (s : Replies)
    → (r : AskEnd × Replies) × (await_reply outside
          (suc (timeout / initial_delay + 1))
          message_id
          f
          now
          timeout
          s
        ≡ some r)
      × (get r.1.pending message_id ≡ none)
      × (is_done (r.1.futures f) ≡ true)
unfolding await_reply
await_reply_ends outside message_id f now timeout s =
    let n = timeout / initial_delay + 1 in
    let s1 = register_pending_reply now message_id f s in
    let (r, e) =
      wait_for_reply_ends outside message_id f (now + timeout) n now initial_delay s1 (omega arith)
        (omega arith) in
    let (gone, done) = end_ask_lem message_id f r.1 in
    ((ask_end r.0 (r.1.futures f), end_ask message_id f r.1), rw e refl, gone, done)
