-- ===== src/Client/Replies/Hear.antt =====
-- A reply that comes, against the specification (src/claw_msg/client/agent.py).
use claw_msg.Prelude.{
  ℕ, ◌+◌, suc, ◌≤◌, ◌<◌, ◌≡◌, refl, sym, ap, ◌∙◌, String, true, false, Option, none, some, nat_eq,
  ◌==◌, arith, eq_iff, nat_eq_iff, if◌then◌else◌, Bool-cases, none-ne-some, inl, inr,
}
use mathlib.Core.Bool.{true≢false}
use claw_msg.Prelude.Dict.{get, remove, get-put, get-remove}
use claw_msg.Client.Replies.{
  Message, resolved, Replies, is_done, is_some, settle_pending, early_reply_ttl,
}
use claw_msg.Client.Replies.Calm.{Calm, kept_early, keep_early-Calm}
use claw_msg.Client.Replies.Ask.{get-remove_self, get-put_self}
use claw_msg.Client.Replies.FirstReply.{
  Asking, silent, waits, gave_up, early_reply, got, spec_hear, Refines, View-cong,
}

module _ (now deadline : ℕ) (before : now < deadline) (k : String) (f : ℕ) (m : Message) where
  kept_early_other :
      (j : String) (s : Replies) (a : Asking)
      → (j == k) ≡ false
      → Refines k f s a
      → Refines k f (kept_early now deadline before j m s) a
  kept_early_other j s a h r = elim (Bool-cases (is_some (get s.early j))) [
    | inl e ↦ rw e r
    | inr e ↦
        rw e
          (View-cong k f a (get-put s.early j k (now + early_reply_ttl, m) ∙ rw h refl) refl refl r)
  ]

  kept_early_futures :
      (j : String) (s : Replies) → (kept_early now deadline before j m s).futures f ≡ s.futures f
  kept_early_futures j s = elim (Bool-cases (is_some (get s.early j))) [
    | inl e ↦ rw e refl
    | inr e ↦ rw e refl
  ]

  kept_early_own :
      (s : Replies) (a : Asking)
      → get s.pending k ≡ none
      → Refines k f s a
      → Refines k f (kept_early now deadline before k m s) (spec_hear k f m a)
  kept_early_own s silent p (e, p', v) =
      rw e ((now + early_reply_ttl, get-put_self s.early k (now + early_reply_ttl, m)), p, v)
  kept_early_own s (early_reply m') p ((t, e), p', v) = rw e ((t, e), p, v)
  kept_early_own s waits p (e, p', v) = absurd (none-ne-some (sym p ∙ p'))
  kept_early_own s gave_up p v = kept_early_futures k s ∙ v
  kept_early_own s (got m') p v = kept_early_futures k s ∙ v

  -- What `settle_pending` does with the cache, in a calm stretch.
  abbrev pub calm_settle : Option ℕ → String → Replies → Replies
  calm_settle none j s = kept_early now deadline before j m s
  calm_settle (some g) j s =
      if is_done (s.futures g)
      then kept_early now deadline before j m s
      else record s { futures = λ h. if nat_eq g h then resolved m else s.futures h }

  pub settle_pending-Calm :
      (n : ℕ) (o : Option ℕ) (j : String) (s : Replies)
      → deadline ≤ now + early_reply_ttl
      → Calm deadline (suc n) s
      → (settle_pending o now j m s).1 ≡ calm_settle o j s
  settle_pending-Calm n none j s h c = keep_early-Calm now deadline before n j m s h c
  settle_pending-Calm n (some g) j s h c = elim (Bool-cases (is_done (s.futures g))) [
    | inl e ↦ rw e (keep_early-Calm now deadline before n j m s h c)
    | inr e ↦ rw e refl
  ]

  abbrev pub popped : String → Replies → Replies
  popped j s = record s { pending = remove s.pending j }

  calm_settle_done :
      (o : Option ℕ) (j : String) (s : Replies)
      → is_done (s.futures f) ≡ true
      → (calm_settle o j s).futures f ≡ s.futures f
  calm_settle_done none j s d = kept_early_futures j s
  calm_settle_done (some g) j s d = elim (Bool-cases (is_done (s.futures g))) [
    | inl e ↦ rw e (kept_early_futures j s)
    | inr e ↦ elim (Bool-cases (nat_eq g f)) [
      | inl same ↦
          let w = nat_eq_iff g f in
          absurd (true≢false (sym d ∙ ap (λ h. is_done (s.futures h)) (sym (w.0 same)) ∙ e))
      | inr other ↦ rw (e, other) refl
    ]
  ]

  -- A reply to the message itself.
  pub calm_settle_own :
      (s : Replies) (a : Asking)
      → Refines k f s a
      → Refines k f (calm_settle (get s.pending k) k (popped k s)) (spec_hear k f m a)
  calm_settle_own s silent (e, p, v) =
      let gone = get-remove_self s.pending k in
      rw p (kept_early_own (popped k s) silent gone (e, gone, v))
  calm_settle_own s (early_reply m') ((t, e), p, v) =
      let gone = get-remove_self s.pending k in
      rw p (kept_early_own (popped k s) (early_reply m') gone ((t, e), gone, v))
  calm_settle_own s waits (e, p, v) = rw (p, v) (ground arith)
  calm_settle_own s gave_up v = calm_settle_done (get s.pending k) k (popped k s) (rw v refl) ∙ v
  calm_settle_own s (got m') v = calm_settle_done (get s.pending k) k (popped k s) (rw v refl) ∙ v

  future_other :
      (g : ℕ) (j : String) → (j == k) ≡ false → (some g ≡ some f → j ≡ k) → nat_eq g f ≡ false
  future_other g j h only = elim (Bool-cases (nat_eq g f)) [
    | inl same ↦
        let w = nat_eq_iff g f in
        let z = eq_iff j k in absurd (true≢false (sym (z.1 (only (ap some (w.0 same)))) ∙ h))
    | inr other ↦ other
  ]

  -- A reply to another message: the future of this one is not touched.
  pub calm_settle_other :
      (o : Option ℕ) (j : String) (s : Replies) (a : Asking)
      → (j == k) ≡ false
      → (o ≡ some f → j ≡ k)
      → Refines k f s a
      → Refines k f (calm_settle o j (popped j s)) a
  calm_settle_other none j s a h only r =
      kept_early_other j (popped j s) a h
        (View-cong k f a refl (get-remove s.pending j k ∙ rw h refl) refl r)
  calm_settle_other (some g) j s a h only r = elim (Bool-cases (is_done (s.futures g))) [
    | inl e ↦ rw e (
        kept_early_other j (popped j s) a h
          (View-cong k f a refl (get-remove s.pending j k ∙ rw h refl) refl r))
    | inr e ↦
        let d = future_other g j h only in
        rw e (View-cong k f a refl (get-remove s.pending j k ∙ rw h refl) (rw d refl) r)
  ]
