-- ===== src/Client/Replies.antt =====
-- src/claw_msg/client/agent.py: the replies that `ask` waits for, and those that come before it
-- waits. The clock counts milliseconds and is read once in a call: none of these calls awaits. A
-- future is a number, by which the state and the caller of `ask` name the same one.
pub mod Bounds
pub mod Calm
pub mod Events
pub mod FirstReply
mod Ask
mod Hear
mod Steps
pub mod Refinement
pub mod Poll
use claw_msg.Prelude.{
  ℕ, ◌+◌, String, Bool, true, false, not, Option, none, some, List, [], ◌∷◌, length, ltb, nat_eq,
  truthy, if◌then◌else◌,
}
use claw_msg.Prelude.Dict.{Dict, get, put, remove}

-- A message as a handler gets it; `none` is a key that is missing or null.
pub record Message : Type 0 where
  pub id : Option String
  pub from_agent : Option String
  pub content : String
  pub reply_to : Option String

-- `asyncio.Future[dict]`
pub data Future : Type 0 where
  waiting cancelled : Future
  resolved : Message → Future

abbrev pub is_done : Future → Bool
is_done waiting = false
is_done cancelled = true
is_done (resolved m) = true

-- `_pending_replies` and `_early_replies` of an `Agent`, and what its futures hold.
pub record Replies : Type 0 where
  pub pending : Dict ℕ
  pub early : Dict (ℕ × Message)
  pub futures : ℕ → Future

-- `_EARLY_REPLY_TTL_SECONDS` and `_EARLY_REPLY_MAX_SIZE`
abbrev pub early_reply_ttl : ℕ
early_reply_ttl = 60000

abbrev pub early_reply_max_size : ℕ
early_reply_max_size = 1000

abbrev pub set_future : ℕ → Future → Replies → Replies
set_future f v s = record s { futures = λ g. if nat_eq f g then v else s.futures g }

-- The first loop of `_prune_early_replies`: it stops at the first entry that lives on.
unfoldable pub drop_expired : ℕ → Dict (ℕ × Message) → Dict (ℕ × Message)
drop_expired now [] = []
drop_expired now ((k, (expires_at, m)) ∷ rest) =
    let dropped = drop_expired now rest in
    if ltb now expires_at then (k, (expires_at, m)) ∷ rest else dropped

-- The second loop: `popitem(last=False)`.
unfoldable pub drop_oldest : Dict (ℕ × Message) → Dict (ℕ × Message)
drop_oldest [] = []
drop_oldest (e ∷ rest) =
    let dropped = drop_oldest rest in
    if ltb early_reply_max_size (length (e ∷ rest)) then dropped else e ∷ rest

unfoldable pub prune_early_replies : ℕ → Replies → Replies
prune_early_replies now s = record s { early = drop_oldest (drop_expired now s.early) }

abbrev pub put_pending : String → ℕ → Replies → Replies
put_pending message_id f s = record s { pending = put s.pending message_id f }

-- What follows the `pop` of the early reply.
abbrev pub settle_early : Option (ℕ × Message) → String → ℕ → Replies → Replies
settle_early none message_id f s = put_pending message_id f s
settle_early (some (expires_at, m)) message_id f s =
    if is_done (s.futures f) then put_pending message_id f s else set_future f (resolved m) s

unfoldable pub register_pending_reply : ℕ → String → ℕ → Replies → Replies
register_pending_reply now message_id f s =
    let s' = prune_early_replies now s in
    settle_early (get s'.early message_id) message_id f
      (record s' { early = remove s'.early message_id })

abbrev pub is_some {ℓ} : {A : Type ℓ} → Option A → Bool
is_some none = false
is_some (some x) = true

-- A reply that nobody waits for; the first one to a message is kept.
unfoldable pub keep_early : ℕ → String → Message → Replies → Replies
keep_early now reply_to m s =
    let s' = prune_early_replies now s in
    if is_some (get s'.early reply_to)
    then s'
    else prune_early_replies now
        (record s' { early = put s'.early reply_to (now + early_reply_ttl, m) })

-- What follows the `pop` of the pending reply.
abbrev pub settle_pending : Option ℕ → ℕ → String → Message → Replies → Bool × Replies
settle_pending none now reply_to m s = (false, keep_early now reply_to m s)
settle_pending (some f) now reply_to m s =
    if is_done (s.futures f)
    then (false, keep_early now reply_to m s)
    else (true, set_future f (resolved m) s)

-- For a `reply_to` that is there.
unfoldable pub resolve_to : ℕ → String → Message → Replies → Bool × Replies
resolve_to now reply_to m s =
    settle_pending (get s.pending reply_to) now reply_to m
      (record s { pending = remove s.pending reply_to })

abbrev pub resolve_named : Option String → ℕ → Message → Replies → Bool × Replies
resolve_named none now m s = (false, s)
resolve_named (some k) now m s = if truthy (some k) then resolve_to now k m s else (false, s)

unfoldable pub resolve_reply : ℕ → Message → Replies → Bool × Replies
resolve_reply now m s = resolve_named m.reply_to now m s
