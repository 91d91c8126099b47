-- ===== src/Client/Replies/Calm.antt =====
-- A stretch of time in which no early reply expires or is pushed out
-- (src/claw_msg/client/agent.py): there the calls read plainly.
use claw_msg.Prelude.{
  ℕ, suc, ◌+◌, ◌≤◌, ◌<◌, ◌≡◌, refl, ap, ◌∙◌, String, [], ◌∷◌, length, ◌==◌, All, arith,
  if◌then◌else◌, Bool-cases, inl, inr,
}
use claw_msg.Prelude.Dict.{Dict, get, put, remove}
use claw_msg.Client.Replies.{
  Message, Replies, early_reply_ttl, early_reply_max_size, drop_expired, drop_oldest,
  prune_early_replies, settle_early, register_pending_reply, is_some, keep_early,
}
use claw_msg.Client.Replies.Bounds.{length-remove_le}

-- The entries live on at `deadline`, and there is room for `n` more.
abbrev pub LivesAt : ℕ → String × (ℕ × Message) → Type 0
LivesAt deadline e = deadline ≤ e.1.0

abbrev pub Calm : ℕ → ℕ → Replies → Type 0
Calm deadline n s = All (LivesAt deadline) s.early × (length s.early + n ≤ early_reply_max_size)

drop_expired_none :
    (now : ℕ) (d : Dict (ℕ × Message)) {deadline : ℕ}
    → now < deadline
    → All (LivesAt deadline) d
    → drop_expired now d ≡ d
unfolding drop_expired
drop_expired_none now [] h a = refl
drop_expired_none now ((k, (e, m)) ∷ d) h a = ground arith

drop_oldest_none : (d : Dict (ℕ × Message)) → length d ≤ early_reply_max_size → drop_oldest d ≡ d
unfolding drop_oldest
drop_oldest_none [] h = refl
drop_oldest_none (e ∷ d) h = ground arith

All-remove :
    (P : String × (ℕ × Message) → Type 0) (d : Dict (ℕ × Message)) (k : String)
    → All P d
    → All P (remove d k)
unfolding remove
All-remove P [] k a = tt
All-remove P ((j, v) ∷ d) k a = elim (Bool-cases (j == k)) [
  | inl e ↦ rw e (All-remove P d k a.1)
  | inr e ↦ rw e (a.0, All-remove P d k a.1)
]

lives-put :
    (deadline : ℕ) (d : Dict (ℕ × Message)) (k : String) (v : ℕ × Message)
    → deadline ≤ v.0
    → All (LivesAt deadline) d
    → All (LivesAt deadline) (put d k v)
unfolding put
lives-put t [] k v h a = (h, tt)
lives-put t ((j, w) ∷ d) k v h a = elim (Bool-cases (j == k)) [
  | inl e ↦ rw e (h, a.1)
  | inr e ↦ rw e (a.0, lives-put t d k v h a.1)
]

length-put_le :
    (d : Dict (ℕ × Message)) (k : String) (v : ℕ × Message) → length (put d k v) ≤ suc (length d)
unfolding put
length-put_le [] k v = omega arith
length-put_le ((j, w) ∷ d) k v = ground (arith, length-put_le d k v)

abbrev with_early : Replies → Dict (ℕ × Message) → Replies
with_early s d = record s { early = d }

module _ (now deadline : ℕ) (before : now < deadline) where
  prune_early_replies_none :
      (n : ℕ) (s : Replies) → Calm deadline n s → prune_early_replies now s ≡ s
  unfolding prune_early_replies
  prune_early_replies_none n s (lives, room) =
      let same : drop_oldest (drop_expired now s.early) ≡ s.early =
        ap drop_oldest (drop_expired_none now s.early before lives)
        ∙ drop_oldest_none s.early (omega arith) in
      ap (with_early s) same

  pub Calm-remove :
      (n : ℕ) (s : Replies) (k : String)
      → Calm deadline n s
      → Calm deadline n (record s { early = remove s.early k })
  Calm-remove n s k (lives, room) =
      let less = length-remove_le s.early k in
      (All-remove (LivesAt deadline) s.early k lives, omega arith)

  -- The calls, without the pruning.
  pub register-Calm :
      (n : ℕ) (k : String) (f : ℕ) (s : Replies)
      → Calm deadline n s
      → register_pending_reply now k f s
        ≡ settle_early (get s.early k) k f (record s { early = remove s.early k })
  unfolding register_pending_reply
  register-Calm n k f s c =
      ap (λ (r : Replies). settle_early (get r.early k) k f (record r { early = remove r.early k }))
        (prune_early_replies_none n s c)

  abbrev pub kept_early : String → Message → Replies → Replies
  kept_early k m s =
      if is_some (get s.early k)
      then s
      else record s { early = put s.early k (now + early_reply_ttl, m) }

  pub Calm-kept_early :
      (n : ℕ) (k : String) (m : Message) (s : Replies)
      → deadline ≤ now + early_reply_ttl
      → Calm deadline (suc n) s
      → Calm deadline n (kept_early k m s)
  Calm-kept_early n k m s h (lives, room) = elim (Bool-cases (is_some (get s.early k))) [
    | inl e ↦ rw e (lives, omega arith)
    | inr e ↦ rw e (
        let more = length-put_le s.early k (now + early_reply_ttl, m) in
        (lives-put deadline s.early k (now + early_reply_ttl, m) h lives, omega arith))
  ]

  -- The rest of `keep_early` after its first pruning.
  abbrev keep_unpruned : String → Message → Replies → Replies
  keep_unpruned k m s =
      if is_some (get s.early k)
      then s
      else prune_early_replies now (with_early s (put s.early k (now + early_reply_ttl, m)))

  pub keep_early-Calm :
      (n : ℕ) (k : String) (m : Message) (s : Replies)
      → deadline ≤ now + early_reply_ttl
      → Calm deadline (suc n) s
      → keep_early now k m s ≡ kept_early k m s
  unfolding keep_early
  keep_early-Calm n k m s h c =
      ap (keep_unpruned k m) (prune_early_replies_none (suc n) s c)
      ∙ elim (Bool-cases (is_some (get s.early k))) [
        | inl e ↦ rw e refl
        | inr e ↦
            let room : Calm deadline n (with_early s (put s.early k (now + early_reply_ttl, m))) =
              rw e at (Calm-kept_early n k m s h c) in
            rw e (prune_early_replies_none n _ room)
      ]
