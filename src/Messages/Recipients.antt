-- ===== src/Messages/Recipients.antt =====
-- Whom a message is for, and that all of them are handed it
-- (src/claw_msg/server/routes_messages.py).
use claw_msg.Prelude.{
  ◌≡◌, refl, String, true, false, not, Option, none, some, List, [], ◌∷◌, ◌++◌, ◌==◌, filter,
  str_truthy, All, All-append, inl, inr, Bool-cases, if◌then◌else◌,
}
use claw_msg.Schema.{Tables, IsWellFormed, has_message}
use claw_msg.Exec.{MsgData, message_receive, Env, World, ok}
use claw_msg.Messages.{MessageSendRequest, members_of, send_message}
use claw_msg.Messages.Handed.{Handed}
use claw_msg.Messages.Guarantee.{hands_over_each}

abbrev direct_recipients : Option String → List String
direct_recipients none = []
direct_recipients (some k) = if str_truthy k then k ∷ [] else []

abbrev room_recipients : String → Option String → Tables → List String
room_recipients sender none t = []
room_recipients sender (some r) t =
    if str_truthy r then filter (λ m. not (m == sender)) (members_of r t) else []

-- The agent that a message is sent to, and the members of its room but the sender.
abbrev pub recipients : String → Option String → Option String → Tables → List String
recipients sender to room t = direct_recipients to ++ room_recipients sender room t

module _ (P : String → Type 0) (sender : String) where
  All-others :
      (ms : List String)
      → All (λ m. (m == sender) ≡ false → P m) ms
      → All P (filter (λ m. not (m == sender)) ms)
  unfolding filter
  All-others [] a = tt
  All-others (m ∷ ms) a = elim (Bool-cases (m == sender)) [
    | inl e ↦ rw e (All-others ms a.1)
    | inr e ↦ rw e (a.0 e, All-others ms a.1)
  ]

  All-direct :
      (to : Option String)
      → ((k : String) → to ≡ some k → str_truthy k ≡ true → P k)
      → All P (direct_recipients to)
  All-direct none h = tt
  All-direct (some k) h = elim (Bool-cases (str_truthy k)) [
    | inl e ↦ rw e (h k refl e, tt)
    | inr e ↦ rw e tt
  ]

  All-room :
      (room : Option String) (t : Tables)
      → ((r : String)
          → room ≡ some r
          → str_truthy r ≡ true
          → All (λ m. (m == sender) ≡ false → P m) (members_of r t))
      → All P (room_recipients sender room t)
  All-room none t h = tt
  All-room (some r) t h = elim (Bool-cases (str_truthy r)) [
    | inl e ↦ rw e (All-others (members_of r t) (h r refl e))
    | inr e ↦ rw e tt
  ]

-- When `send_message` returns, the message is stored, and each of its recipients, the agent it is
-- sent to and the members of its room but the sender, has been handed it: by the frame of the
-- answer on one of the recipient's live sockets, or by a pending entry of the queue. (The tables
-- keep their foreign keys.)
pub send_message_hands_over :
    (env : Env) (req : MessageSendRequest) (sender : String) (w : World) {msg : MsgData}
    {w' : World}
    → IsWellFormed w.db.tables
    → send_message env req sender w ≡ (ok msg, w')
    → (has_message w'.db.tables msg.id ≡ true)
      × All
          (λ k. Handed env msg.id (message_receive msg) k w')
          (recipients sender msg.to_agent msg.room_id w.db.tables)
send_message_hands_over env req sender w {msg} {w'} wf h =
    let (there, to_agent, to_room) = hands_over_each env req sender w wf h in
    let P : String → Type 0 = λ k. Handed env msg.id (message_receive msg) k w' in
    (
      there,
      All-append P (direct_recipients msg.to_agent) (room_recipients sender msg.room_id w.db.tables)
          (All-direct P sender msg.to_agent to_agent)
          (All-room P sender msg.room_id w.db.tables to_room),
    )
