-- ===== src/Client/Replies/Steps.antt =====
-- Every event against the specification (src/claw_msg/client/agent.py).
use claw_msg.Prelude.{
  ℕ, ◌+◌, suc, ◌≤◌, ◌<◌, ◌≡◌, refl, sym, ap, ◌∙◌, String, true, false, Option, none, some, nat_eq,
  ◌==◌, arith, eq_iff, nat_eq_iff, if◌then◌else◌, Bool-cases, str_truthy, opt_eq, inl, inr,
}
use mathlib.Core.Bool.{true≢false}
use claw_msg.Prelude.Dict.{get, remove}
use claw_msg.Client.Replies.{
  Message, Replies, is_done, settle_early, resolve_to, resolve_named, register_pending_reply,
  early_reply_ttl,
}
use claw_msg.Client.Replies.Calm.{Calm, Calm-kept_early, kept_early, register-Calm, Calm-remove}
use claw_msg.Client.Replies.Events.{end_ask, end_ask-early}
use claw_msg.Client.Replies.FirstReply.{Asking, spec_ask, spec_hear, spec_end, Refines, Only}
use claw_msg.Client.Replies.Ask.{
  get-remove-some, settle_early_own, settle_early_other, Only-settle_early, end_ask_own,
  end_ask_other, Only-end_ask,
}
use claw_msg.Client.Replies.Hear.{
  calm_settle, settle_pending-Calm, popped, calm_settle_own, calm_settle_other,
}

Calm-less : (t n : ℕ) (s : Replies) → Calm t (suc n) s → Calm t n s
Calm-less t n s (lives, room) = (lives, omega arith)

settle_early-early :
    (o : Option (ℕ × Message)) (j : String) (g : ℕ) (s : Replies)
    → (settle_early o j g s).early ≡ s.early
settle_early-early none j g s = refl
settle_early-early (some (t, m)) j g s = elim (Bool-cases (is_done (s.futures g))) [
  | inl e ↦ rw e refl
  | inr e ↦ rw e refl
]

Calm-cong : (t n : ℕ) (s s' : Replies) → s'.early ≡ s.early → Calm t n s → Calm t n s'
Calm-cong t n s s' e c = rw e c

module _ (k : String) (f : ℕ) (start : ℕ) where
  abbrev pub deadline : ℕ
  deadline = start + early_reply_ttl

  -- What a stretch of the run keeps, with room for `n` more replies.
  abbrev pub Holds : ℕ → Replies → Asking → Type 0
  Holds n s a = Calm deadline n s × Only k f s × Refines k f s a

  same_future : (j : String) (g : ℕ) → (j == k) ≡ nat_eq g f → (j == k) ≡ true → g ≡ f
  same_future j g pair e = let w = nat_eq_iff g f in w.0 (sym pair ∙ e)

  same_name : (j : String) → (j == k) ≡ true → j ≡ k
  same_name j e = let w = eq_iff j k in w.0 e

  nameless : (j : String) → str_truthy j ≡ false → str_truthy k ≡ true → (j == k) ≡ false
  nameless j e named = elim (Bool-cases (j == k)) [
    | inl same ↦
        absurd (true≢false (sym named ∙ ap (λ s. str_truthy s) (sym (same_name j same)) ∙ e))
    | inr other ↦ other
  ]

  ask-Refines :
      (j : String) (g : ℕ) (s : Replies) (a : Asking)
      → (j == k) ≡ nat_eq g f
      → Refines k f s a
      → Refines k f
          (settle_early (get s.early j) j g (record s { early = remove s.early j }))
          (if j == k then spec_ask k f a else a)
  ask-Refines j g s a pair r = elim (Bool-cases (j == k)) [
    | inl e ↦ rw (e, same_name j e, same_future j g pair e) (settle_early_own k f s a r)
    | inr e ↦ rw e (settle_early_other k f s (get s.early j) j g a e (sym pair ∙ e) r)
  ]

  pub ask-Holds :
      (n now : ℕ) (j : String) (g : ℕ) (s : Replies) (a : Asking)
      → now < start + early_reply_ttl
      → (j == k) ≡ nat_eq g f
      → Holds (suc n) s a
      → Holds n (register_pending_reply now j g s) (if j == k then spec_ask k f a else a)
  ask-Holds n now j g s a before pair (c, only, r) =
      let s' = record s { early = remove s.early j } in
      let c' = Calm-remove now deadline before n s j (Calm-less deadline n s c) in
      rw (register-Calm now deadline before (suc n) j g s c) (
        Calm-cong deadline n s' (settle_early (get s.early j) j g s')
            (settle_early-early (get s.early j) j g s') c',
        Only-settle_early k f s (get s.early j) j g pair only,
        ask-Refines j g s a pair r,
      )

  end-Refines :
      (j : String) (g : ℕ) (s : Replies) (a : Asking)
      → (j == k) ≡ nat_eq g f
      → Refines k f s a
      → Refines k f (end_ask j g s) (if j == k then spec_end k f a else a)
  end-Refines j g s a pair r = elim (Bool-cases (j == k)) [
    | inl e ↦ rw (e, same_name j e, same_future j g pair e) (end_ask_own k f s a r)
    | inr e ↦ rw e (end_ask_other k f s j g a e (sym pair ∙ e) r)
  ]

  pub end-Holds :
      (n : ℕ) (j : String) (g : ℕ) (s : Replies) (a : Asking)
      → (j == k) ≡ nat_eq g f
      → Holds (suc n) s a
      → Holds n (end_ask j g s) (if j == k then spec_end k f a else a)
  end-Holds n j g s a pair (c, only, r) = (
    Calm-cong deadline n s (end_ask j g s) (end_ask-early j g s) (Calm-less deadline n s c),
    Only-end_ask k f s j g only,
    end-Refines j g s a pair r,
  )

  -- What comes after the `pop` of the pending reply.
  module _ (n now : ℕ) (m : Message) (after : start ≤ now) (before : now < deadline) where
    Calm-calm_settle :
        (o : Option ℕ) (j : String) (s : Replies)
        → Calm deadline (suc n) s
        → Calm deadline n (calm_settle now deadline before k f m o j s)
    Calm-calm_settle none j s c = Calm-kept_early now deadline before n j m s (omega arith) c
    Calm-calm_settle (some g) j s c = elim (Bool-cases (is_done (s.futures g))) [
      | inl e ↦ rw e (Calm-kept_early now deadline before n j m s (omega arith) c)
      | inr e ↦ rw e (Calm-less deadline n s c)
    ]

    kept_early-pending :
        (j : String) (s : Replies) → (kept_early now deadline before j m s).pending ≡ s.pending
    kept_early-pending j s = ground arith

    calm_settle-pending :
        (o : Option ℕ) (j : String) (s : Replies)
        → (calm_settle now deadline before k f m o j s).pending ≡ s.pending
    calm_settle-pending none j s = kept_early-pending j s
    calm_settle-pending (some g) j s = elim (Bool-cases (is_done (s.futures g))) [
      | inl e ↦ rw e (kept_early-pending j s)
      | inr e ↦ rw e refl
    ]

    hear-Refines :
        (j : String) (s : Replies) (a : Asking)
        → Only k f s
        → Refines k f s a
        → Refines k f
            (calm_settle now deadline before k f m
              (get s.pending j)
              j
              (popped now deadline before k f m j s))
            (if j == k then spec_hear k f m a else a)
    hear-Refines j s a only r = elim (Bool-cases (j == k)) [
      | inl e ↦ rw (e, same_name j e) (calm_settle_own now deadline before k f m s a r)
      | inr e ↦
          rw e (calm_settle_other now deadline before k f m (get s.pending j) j s a e (only j) r)
    ]

    resolve_to-Holds :
        (j : String) (s : Replies) (a : Asking)
        → Holds (suc n) s a
        → Holds n (resolve_to now j m s).1 (if j == k then spec_hear k f m a else a)
    unfolding resolve_to
    resolve_to-Holds j s a (c, only, r) =
        let s' = popped now deadline before k f m j s in
        let o = get s.pending j in
        rw (settle_pending-Calm now deadline before k f m n o j s' (omega arith) c) (
          Calm-calm_settle o j s' c,
          rw (calm_settle-pending o j s') (λ i q. only i (get-remove-some s.pending j i f q)),
          hear-Refines j s a only r,
        )

    pub hear-Holds :
        (o : Option String) (s : Replies) (a : Asking)
        → str_truthy k ≡ true
        → Holds (suc n) s a
        → Holds n (resolve_named o now m s).1 (if opt_eq o k then spec_hear k f m a else a)
    hear-Holds none s a named (c, only, r) = (Calm-less deadline n s c, only, r)
    hear-Holds (some j) s a named (c, only, r) = elim (Bool-cases (str_truthy j)) [
      | inl e ↦ rw e (resolve_to-Holds j s a (c, only, r))
      | inr e ↦
          let other : (j == k) ≡ false = nameless j e named in
          rw (e, other) (Calm-less deadline n s c, only, r)
    ]
