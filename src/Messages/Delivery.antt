-- ===== src/Messages/Delivery.antt =====
-- The deliveries of one message (src/claw_msg/server/routes_messages.py).
use claw_msg.Prelude.{
  ◌≡◌, refl, sym, ◌∙◌, ◌⊎◌, inl, inr, String, true, false, Option, none, some, List, [], ◌∷◌, arith,
  ◌==◌, str_truthy, All, Bool-cases,
}
use mathlib.Core.Bool.{false≢true}
use mathlib.Core.Path.{subst}
use claw_msg.Schema.{queue_is}
use claw_msg.Table.{find_first}
use claw_msg.Table.Laws.{find_first-append}
use claw_msg.Exec.{Frame, Env, World, Result, Error, ok, raised, raised-ne-ok}
use claw_msg.OfflineQueue.{enqueue, queue_row}
use claw_msg.OfflineQueue.Status.{status_of, queue_after_enqueue}
use claw_msg.Broker.Delivery.{answer, after_send}
use claw_msg.Messages.{deliver_one, deliver_direct, deliver_each, deliver_room, members_of}
use claw_msg.Messages.Handed.{
  Handed, IsOpen, is_open, deliver_one-keeps, deliver_one-Handed, deliver_one_parts, after_send_db,
}

Unit_cases : (r : Result (Unit {0})) → (r ≡ ok tt) ⊎ ((e : Error) × (r ≡ raised e))
Unit_cases (ok tt) = inl refl
Unit_cases (raised e) = inr (e, refl)

enqueue_open :
    (env : Env) (m k j : String) (w : World)
    → is_open (status_of m k w.db) ≡ true
    → is_open (status_of m k (enqueue env m j w).1.db) ≡ true
unfolding status_of find_first
enqueue_open env m k j w o = rw queue_after_enqueue (
    ground
      (arith, find_first-append (queue_is m k) w.db.tables.delivery_queue (queue_row env m j ∷ [])))

module _ (env : Env) (id : String) (f : Frame) where
  pub deliver_one-IsOpen :
      (j : String) (w : World) → IsOpen id w → IsOpen id (deliver_one env id f j w).1
  deliver_one-IsOpen j w o k = rw deliver_one_parts (elim (Bool-cases (answer env.alive j f w)) [
    | inl e ↦ rw e (rw after_send_db (o k))
    | inr e ↦ rw e (enqueue_open env id k j (after_send env.alive j f w) (rw after_send_db (o k)))
  ])

  -- The three ways in which a round of the loop over the members goes on.
  pub each_skip :
      (sender m : String) (ms : List String) (w : World)
      → (m == sender) ≡ true
      → deliver_each env id f sender (m ∷ ms) w ≡ deliver_each env id f sender ms w
  unfolding deliver_each
  each_skip sender m ms w e = rw e

  pub each_ok :
      (sender m : String) (ms : List String) (w : World)
      → (m == sender) ≡ false
      → (deliver_one env id f m w).0 ≡ ok tt
      → deliver_each env id f sender (m ∷ ms) w
        ≡ deliver_each env id f sender ms (deliver_one env id f m w).1
  unfolding deliver_each
  each_ok sender m ms w e r = rw (e, r)

  each_raised :
      (sender m : String) (ms : List String) (w : World) {x : Error}
      → (m == sender) ≡ false
      → (deliver_one env id f m w).0 ≡ raised x
      → deliver_each env id f sender (m ∷ ms) w ≡ (raised x, (deliver_one env id f m w).1)
  unfolding deliver_each
  each_raised sender m ms w e r = rw (e, r)

  -- What one delivery keeps, all keep.
  module _ (P : World → Type 0)
      (step : (j : String) (w : World) → P w → P (deliver_one env id f j w).1) where
    pub each_induction :
        (sender : String) (ms : List String) (w : World)
        → P w
        → P (deliver_each env id f sender ms w).1
    unfolding deliver_each
    each_induction sender [] w p = p
    each_induction sender (m ∷ ms) w p = elim (Bool-cases (m == sender)) [
      | inl e ↦ rw (each_skip sender m ms w e) (each_induction sender ms w p)
      | inr e ↦ elim (Unit_cases (deliver_one env id f m w).0) [
        | inl r ↦
            rw (each_ok sender m ms w e r)
              (each_induction sender ms (deliver_one env id f m w).1 (step m w p))
        | inr (x, r) ↦ rw (each_raised sender m ms w e r) (step m w p)
      ]
    ]

    pub room_induction :
        (sender : String) (room : Option String) (w : World)
        → P w
        → P (deliver_room env id f sender room w).1
    unfolding deliver_room
    room_induction sender none w p = p
    room_induction sender (some room) w p = elim (Bool-cases (str_truthy room)) [
      | inl e ↦ rw e (each_induction sender (members_of room w.db.tables) w p)
      | inr e ↦ rw e p
    ]

    pub direct_induction :
        (to : Option String) (w : World) → P w → P (deliver_direct env id f to w).1
    unfolding deliver_direct
    direct_induction none w p = p
    direct_induction (some to) w p = elim (Bool-cases (str_truthy to)) [
      | inl e ↦ rw e (step to w p)
      | inr e ↦ rw e p
    ]

  -- The message has been handed to all of a list but the sender, by the state that a call left.
  abbrev pub AllHanded : String → List String → Result (Unit {0}) × World → Type 0
  AllHanded sender ms r = All (λ m. (m == sender) ≡ false → Handed env id f m r.1) ms

  -- A loop that has returned has handed the message to every member but the sender.
  pub deliver_each-Handed :
      (sender : String) (ms : List String) (w : World)
      → IsOpen id w
      → (deliver_each env id f sender ms w).0 ≡ ok tt
      → AllHanded sender ms (deliver_each env id f sender ms w)
  deliver_each-Handed sender [] w o h = tt
  deliver_each-Handed sender (m ∷ ms) w o h = elim (Bool-cases (m == sender)) [
    | inl e ↦
        let go = each_skip sender m ms w e in
        subst (AllHanded sender (m ∷ ms)) (sym go)
          (λ n. absurd (false≢true (sym n ∙ e)), deliver_each-Handed sender ms w o (rw go at h))
    | inr e ↦ elim (Unit_cases (deliver_one env id f m w).0) [
      | inl r ↦
          let go = each_ok sender m ms w e r in
          let w' = (deliver_one env id f m w).1 in
          subst (AllHanded sender (m ∷ ms)) (sym go) (
            λ n.
                each_induction (Handed env id f m) (λ j v. deliver_one-keeps env id f j m v) sender
                  ms w' (deliver_one-Handed env id f m w (o m) r),
            deliver_each-Handed sender ms w' (deliver_one-IsOpen m w o) (rw go at h),
          )
      | inr (x, r) ↦ absurd (raised-ne-ok (rw (each_raised sender m ms w e r) at h))
    ]
  ]
