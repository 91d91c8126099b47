-- ===== src/Client/Replies/Ask.antt =====
-- The start and the end of an `ask` against its specification (src/claw_msg/client/agent.py).
use claw_msg.Prelude.{
  ℕ, ◌≡◌, refl, sym, ◌∙◌, String, false, Option, none, some, nat_eq, ◌==◌, arith, eq_iff, eq_refl,
  nat_eq_iff, Bool-cases, Option-cases, none-ne-some, some-injective, inl, inr,
}
use claw_msg.Prelude.Dict.{Dict, get, put, remove, get-put, get-remove}
use claw_msg.Client.Replies.{Message, Replies, is_done, settle_early}
use claw_msg.Client.Replies.Events.{end_ask}
use claw_msg.Client.Replies.FirstReply.{
  Asking, silent, waits, gave_up, early_reply, got, spec_ask, spec_end, Refines, View-cong, Only,
}

pub get-remove_self {ℓ} : {V : Type ℓ} (d : Dict V) (k : String) → get (remove d k) k ≡ none
get-remove_self d k = get-remove d k k ∙ rw (eq_refl k) refl

pub get-put_self {ℓ} : {V : Type ℓ} (d : Dict V) (k : String) (v : V) → get (put d k v) k ≡ some v
get-put_self d k v = get-put d k k v ∙ rw (eq_refl k) refl

-- A name that a table holds after the name `j` has gone was there before.
pub get-remove-some {ℓ} :
    {V : Type ℓ} (d : Dict V) (j i : String) (v : V)
    → get (remove d j) i ≡ some v
    → get d i ≡ some v
get-remove-some d j i v h = elim (Bool-cases (j == i)) [
  | inl e ↦ absurd (none-ne-some (sym (get-remove d j i ∙ rw e refl) ∙ h))
  | inr e ↦ sym (get-remove d j i ∙ rw e refl) ∙ h
]

module _ (k : String) (f : ℕ) (s : Replies) where
  -- The early replies of `j` are taken out.
  abbrev taken : String → Replies
  taken j = record s { early = remove s.early j }

  pub settle_early_own :
      (a : Asking)
      → Refines k f s a
      → Refines k f (settle_early (get s.early k) k f (taken k)) (spec_ask k f a)
  settle_early_own silent (e, p, v) =
      rw e (get-remove_self s.early k, get-put_self s.pending k f, v)
  settle_early_own (early_reply m) ((t, e), p, v) = rw (e, v) ground arith
  settle_early_own waits (e, p, v) = rw e (get-remove_self s.early k, get-put_self s.pending k f, v)
  settle_early_own gave_up v = elim (Option-cases (get s.early k)) [
    | inl e ↦ rw e v
    | inr ((t, m), e) ↦ rw (e, v) v
  ]
  settle_early_own (got m) v = elim (Option-cases (get s.early k)) [
    | inl e ↦ rw e v
    | inr ((t, m'), e) ↦ rw (e, v) v
  ]

  put_pending_other :
      (j : String) (g : ℕ) (a : Asking)
      → (j == k) ≡ false
      → Refines k f s a
      → Refines k f (settle_early none j g (taken j)) a
  put_pending_other j g a h r =
      View-cong k f a (get-remove s.early j k ∙ rw h refl) (get-put s.pending j k g ∙ rw h refl)
        refl r

  pub settle_early_other :
      (o : Option (ℕ × Message)) (j : String) (g : ℕ) (a : Asking)
      → (j == k) ≡ false
      → nat_eq g f ≡ false
      → Refines k f s a
      → Refines k f (settle_early o j g (taken j)) a
  settle_early_other none j g a h d r = put_pending_other j g a h r
  settle_early_other (some (t, m)) j g a h d r = elim (Bool-cases (is_done (s.futures g))) [
    | inl e ↦ rw e (put_pending_other j g a h r)
    | inr e ↦ rw e (View-cong k f a (get-remove s.early j k ∙ rw h refl) refl (rw d refl) r)
  ]

  Only-put :
      (j : String) (g : ℕ)
      → (j == k) ≡ nat_eq g f
      → Only k f s
      → Only k f (settle_early none j g (taken j))
  Only-put j g h only i q = elim (Bool-cases (j == i)) [
    | inl e ↦
        let own : some g ≡ some f = sym (get-put s.pending j i g ∙ rw e refl) ∙ q in
        let same : g ≡ f = some-injective own in
        let w = eq_iff j k in let z = eq_iff j i in sym (z.0 e) ∙ w.0 (h ∙ (nat_eq_iff g f).1 same)
    | inr e ↦ only i (sym (get-put s.pending j i g ∙ rw e refl) ∙ q)
  ]

  pub Only-settle_early :
      (o : Option (ℕ × Message)) (j : String) (g : ℕ)
      → (j == k) ≡ nat_eq g f
      → Only k f s
      → Only k f (settle_early o j g (taken j))
  Only-settle_early none j g h only = Only-put j g h only
  Only-settle_early (some (t, m)) j g h only = elim (Bool-cases (is_done (s.futures g))) [
    | inl e ↦ rw e (Only-put j g h only)
    | inr e ↦ rw e only
  ]

  pub end_ask_own : (a : Asking) → Refines k f s a → Refines k f (end_ask k f s) (spec_end k f a)
  unfolding end_ask
  end_ask_own silent (e, p, v) = rw v (ground arith)
  end_ask_own (early_reply m) (e, p, v) = rw v (ground arith)
  end_ask_own waits (e, p, v) = rw v (ground arith)
  end_ask_own gave_up v = rw v v
  end_ask_own (got m) v = rw v v

  pub end_ask_other :
      (j : String) (g : ℕ) (a : Asking)
      → (j == k) ≡ false
      → nat_eq g f ≡ false
      → Refines k f s a
      → Refines k f (end_ask j g s) a
  unfolding end_ask
  end_ask_other j g a h d r = elim (Bool-cases (is_done (s.futures g))) [
    | inl e ↦ rw e (View-cong k f a refl (get-remove s.pending j k ∙ rw h refl) refl r)
    | inr e ↦ rw e (View-cong k f a refl (get-remove s.pending j k ∙ rw h refl) (rw d refl) r)
  ]

  pub Only-end_ask : (j : String) (g : ℕ) → Only k f s → Only k f (end_ask j g s)
  unfolding end_ask
  Only-end_ask j g only = elim (Bool-cases (is_done (s.futures g))) [
    | inl e ↦ rw e (λ i q. only i (get-remove-some s.pending j i f q))
    | inr e ↦ rw e (λ i q. only i (get-remove-some s.pending j i f q))
  ]
