-- ===== src/Client/Replies/Bounds.antt =====
-- How large the cache of early replies grows (src/claw_msg/client/agent.py).
use claw_msg.Prelude.{
  ℕ, ◌≤◌, String, Option, none, some, [], ◌∷◌, length, arith, Bool-cases, truthy, inl, inr,
}
use claw_msg.Prelude.Dict.{Dict, get, remove}
use claw_msg.Client.Replies.{
  Message, Replies, early_reply_max_size, drop_expired, drop_oldest, prune_early_replies,
  settle_early, register_pending_reply, keep_early, settle_pending, resolve_to, resolve_named,
  resolve_reply, is_done, is_some,
}

abbrev pub IsBounded : Replies → Type 0
IsBounded s = length s.early ≤ early_reply_max_size

pub length-drop_oldest_le : (d : Dict (ℕ × Message)) → length (drop_oldest d) ≤ early_reply_max_size
unfolding drop_oldest
length-drop_oldest_le [] = omega arith
length-drop_oldest_le (e ∷ rest) = ground (arith, length-drop_oldest_le rest)

pub length-remove_le : (d : Dict (ℕ × Message)) (k : String) → length (remove d k) ≤ length d
unfolding remove
length-remove_le [] k = omega arith
length-remove_le ((j, v) ∷ d) k = ground (arith, length-remove_le d k)

-- Every path through the calls prunes, or does not add.
pub prune_early_replies-IsBounded : (now : ℕ) (s : Replies) → IsBounded (prune_early_replies now s)
unfolding prune_early_replies
prune_early_replies-IsBounded now s = length-drop_oldest_le (drop_expired now s.early)

settle_early-IsBounded :
    (o : Option (ℕ × Message)) (k : String) (f : ℕ) (s : Replies)
    → IsBounded s
    → IsBounded (settle_early o k f s)
settle_early-IsBounded none k f s h = h
settle_early-IsBounded (some (e, m)) k f s h = elim (Bool-cases (is_done (s.futures f))) [
  | inl d ↦ rw d h
  | inr d ↦ rw d h
]

pub register_pending_reply-IsBounded :
    (now : ℕ) (k : String) (f : ℕ) (s : Replies) → IsBounded (register_pending_reply now k f s)
unfolding register_pending_reply
register_pending_reply-IsBounded now k f s =
    let s' = prune_early_replies now s in
    let small = prune_early_replies-IsBounded now s in
    let less = length-remove_le s'.early k in
    settle_early-IsBounded (get s'.early k) k f (record s' { early = remove s'.early k })
      (omega arith)

keep_early-IsBounded :
    (now : ℕ) (k : String) (m : Message) (s : Replies) → IsBounded (keep_early now k m s)
unfolding keep_early
keep_early-IsBounded now k m s =
    elim (Bool-cases (is_some (get (prune_early_replies now s).early k))) [
      | inl e ↦ rw e (prune_early_replies-IsBounded now s)
      | inr e ↦ rw e (prune_early_replies-IsBounded now _)
    ]

settle_pending-IsBounded :
    (o : Option ℕ) (now : ℕ) (k : String) (m : Message) (s : Replies)
    → IsBounded s
    → IsBounded (settle_pending o now k m s).1
settle_pending-IsBounded none now k m s h = keep_early-IsBounded now k m s
settle_pending-IsBounded (some f) now k m s h = elim (Bool-cases (is_done (s.futures f))) [
  | inl d ↦ rw d (keep_early-IsBounded now k m s)
  | inr d ↦ rw d h
]

resolve_named-IsBounded :
    (o : Option String) (now : ℕ) (m : Message) (s : Replies)
    → IsBounded s
    → IsBounded (resolve_named o now m s).1
unfolding resolve_to
resolve_named-IsBounded none now m s h = h
resolve_named-IsBounded (some k) now m s h = elim (Bool-cases (truthy (some k))) [
  | inl e ↦ rw e (
      settle_pending-IsBounded (get s.pending k) now k m (record s { pending = remove s.pending k })
        h)
  | inr e ↦ rw e h
]

pub resolve_reply-IsBounded :
    (now : ℕ) (m : Message) (s : Replies) → IsBounded s → IsBounded (resolve_reply now m s).1
unfolding resolve_reply
resolve_reply-IsBounded now m s h = resolve_named-IsBounded m.reply_to now m s h
