-- ===== src/Client/Replies/FirstReply.antt =====
-- What `ask` gets (src/claw_msg/client/agent.py): the first reply to its message, whether the reply
-- comes before `ask` waits or after. The specification forgets the tables: it follows one message.
use claw_msg.Prelude.{
  ℕ, ◌≡◌, String, Option, none, some, List, [], ◌∷◌, nat_eq, opt_eq, ◌==◌, if◌then◌else◌,
}
use claw_msg.Prelude.Dict.{get}
use claw_msg.Client.Replies.{Message, Future, waiting, cancelled, resolved, Replies}
use claw_msg.Client.Replies.Events.{Event, asked, heard, ended}

-- One message of the agent: nothing has come and nobody waits; a reply has come; `ask` waits; it
-- has got the reply; it has ended without.
pub data Asking : Type 0 where
  silent waits gave_up : Asking
  early_reply got : Message → Asking

module _ (k : String) (f : ℕ) where
  abbrev pub spec_ask : Asking → Asking
  spec_ask silent = waits
  spec_ask (early_reply m) = got m
  spec_ask waits = waits
  spec_ask gave_up = gave_up
  spec_ask (got m) = got m

  abbrev pub spec_hear : Message → Asking → Asking
  spec_hear m silent = early_reply m
  spec_hear m waits = got m
  spec_hear m (early_reply m') = early_reply m'
  spec_hear m gave_up = gave_up
  spec_hear m (got m') = got m'

  abbrev pub spec_end : Asking → Asking
  spec_end (got m) = got m
  spec_end silent = gave_up
  spec_end waits = gave_up
  spec_end (early_reply m) = gave_up
  spec_end gave_up = gave_up

  unfoldable pub spec_event : Event → Asking → Asking
  spec_event (asked now j g) a = if j == k then spec_ask a else a
  spec_event (heard now m) a = if opt_eq m.reply_to k then spec_hear m a else a
  spec_event (ended j g) a = if j == k then spec_end a else a

  unfoldable pub spec_events : List Event → Asking → Asking
  spec_events [] a = a
  spec_events (e ∷ es) a = spec_events es (spec_event e a)

  -- What the state holds of the message: the early reply, the future that waits, the future.
  abbrev pub View : Option (ℕ × Message) → Option ℕ → Future → Asking → Type 0
  View e p v silent = (e ≡ none) × (p ≡ none) × (v ≡ waiting)
  View e p v (early_reply m) = ((t : ℕ) × (e ≡ some (t, m))) × (p ≡ none) × (v ≡ waiting)
  View e p v waits = (e ≡ none) × (p ≡ some f) × (v ≡ waiting)
  View e p v (got m) = v ≡ resolved m
  View e p v gave_up = v ≡ cancelled

  abbrev pub Refines : Replies → Asking → Type 0
  Refines s a = View (get s.early k) (get s.pending k) (s.futures f) a

  -- The future waits under no other message.
  abbrev pub Only : Replies → Type 0
  Only s = (j : String) → get s.pending j ≡ some f → j ≡ k

  -- Each `ask` has a future of its own.
  abbrev pub Pairs : Event → Type 0
  Pairs (asked now j g) = (j == k) ≡ nat_eq g f
  Pairs (heard now m) = Unit
  Pairs (ended j g) = (j == k) ≡ nat_eq g f

  -- Two states that hold the same of the message.
  pub View-cong :
      {e e' : Option (ℕ × Message)} {p p' : Option ℕ} {v v' : Future} (a : Asking)
      → e' ≡ e
      → p' ≡ p
      → v' ≡ v
      → View e p v a
      → View e' p' v' a
  View-cong a e p v r = rw (e, p, v) r
