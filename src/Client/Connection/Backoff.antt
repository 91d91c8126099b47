-- ===== src/Client/Connection/Backoff.antt =====
-- The pauses between connections (src/claw_msg/client/connection.py).
use claw_msg.Prelude.{
  ℕ, zero, suc, ◌*◌, ◌≤◌, ◌≡◌, refl, sym, ap, ◌∙◌, String, Bool, true, false, Option, none, some,
  List, [], ◌∷◌, ◌++◌, min, map, All, arith, Bool-cases, Option-cases, inl, inr, if◌then◌else◌,
}
use mathlib.Core.Bool.{false≢true}
use mathlib.Core.List.{append_assoc, append-nil}
use claw_msg.Json.{Json}
use claw_msg.Client.Connection.{Listener, Traffic}
use claw_msg.Client.Connection.Listen.{
  Attempt, refused, answered, Delays, Loop, login_id, pause, attempt, listen_loop, listen,
}

-- Whether an attempt gets past the login.
abbrev pub is_some_id : Option Json → Bool
is_some_id none = false
is_some_id (some id) = true

abbrev pub logs_in : Attempt → Bool
logs_in refused = false
logs_in (answered resp raws e) = is_some_id (login_id resp)

-- `d` doubled `n` times.
unfoldable pub doubled : ℕ → ℕ → ℕ
doubled zero d = d
doubled (suc n) d = doubled n d * 2

-- The pauses after the attempts, `n` of them having failed in a row before.
unfoldable pub pauses : Delays → ℕ → List Bool → List ℕ
pauses d n [] = []
pauses d n (true ∷ oks) = d.reconnect_delay ∷ pauses d 1 oks
pauses d n (false ∷ oks) =
    min (doubled n d.reconnect_delay) d.max_reconnect_delay ∷ pauses d (suc n) oks

stopped_stays :
    (d : Delays) (l : Listener) (token : String) (script : List Attempt) (s : Loop)
    → s.running ≡ false
    → (listen_loop d l token script s).running ≡ false
unfolding listen_loop
stopped_stays d l token [] s h = h
stopped_stays d l token (a ∷ later) s h = rw h refl

pause-running : (d : Delays) (s : Loop) → (pause d s).running ≡ s.running
unfolding pause
pause-running d s = ground arith

doubled_again :
    (n : ℕ) (d : Delays) (x y : ℕ)
    → x ≡ min (doubled n d.reconnect_delay) d.max_reconnect_delay
    → y ≡ min (x * 2) d.max_reconnect_delay
    → y ≡ min (doubled (suc n) d.reconnect_delay) d.max_reconnect_delay
unfolding doubled
doubled_again n d x y e h = omega arith

module _ (d : Delays) (l : Listener) (token : String) where
  attempt-slept : (a : Attempt) (s : Loop) → (attempt d l token a s).slept ≡ s.slept
  attempt-slept refused s = refl
  attempt-slept (answered resp raws e) s = elim (Option-cases (login_id resp)) [
    | inl h ↦ rw h refl
    | inr (id, h) ↦ rw h refl
  ]

  attempt-delay :
      (a : Attempt) (s : Loop)
      → (attempt d l token a s).delay ≡ (if logs_in a then d.reconnect_delay else s.delay)
  attempt-delay refused s = refl
  attempt-delay (answered resp raws e) s = elim (Option-cases (login_id resp)) [
    | inl h ↦ rw h refl
    | inr (id, h) ↦ rw h refl
  ]

  -- What a round that goes on adds.
  round_lem :
      (a : Attempt) (s : Loop)
      → (attempt d l token a s).running ≡ true
      → ((pause d (attempt d l token a s)).slept
          ≡ s.slept ++ ((if logs_in a then d.reconnect_delay else s.delay) ∷ []))
        × ((pause d (attempt d l token a s)).delay
            ≡ min ((if logs_in a then d.reconnect_delay else s.delay) * 2) d.max_reconnect_delay)
  unfolding pause
  round_lem a s h = rw (h, attempt-slept a s, attempt-delay a s) (refl, refl)

  listen_loop-slept :
      (n : ℕ) (script : List Attempt) (s : Loop)
      → d.reconnect_delay ≤ d.max_reconnect_delay
      → s.delay ≡ min (doubled n d.reconnect_delay) d.max_reconnect_delay
      → (listen_loop d l token script s).running ≡ true
      → (listen_loop d l token script s).slept ≡ s.slept ++ pauses d n (map logs_in script)
  unfolding listen_loop pauses doubled
  listen_loop-slept n [] s small e h = sym (append-nil s.slept)
  listen_loop-slept n (a ∷ later) s small e h = elim (Bool-cases s.running) [
    | inr stopped ↦ absurd (false≢true (sym (stopped_stays d l token (a ∷ later) s stopped) ∙ h))
    | inl running ↦
        let s' = pause d (attempt d l token a s) in
        let on : listen_loop d l token (a ∷ later) s ≡ listen_loop d l token later s' =
          rw (listen_loop, running) refl in
        let h' = ap (λ (x : Loop). x.running) (sym on) ∙ h in
        ap (λ (x : Loop). x.slept) on ∙ elim (Bool-cases (attempt d l token a s).running) [
          | inr stopped ↦ absurd (
              false≢true
                (sym (stopped_stays d l token later s' (pause-running d _ ∙ stopped)) ∙ h'))
          | inl up ↦ elim (Bool-cases (logs_in a)) [
            | inl ok ↦
                let (es, ed) = round_lem a s up in
                listen_loop-slept 1 later s' small (rw ok at ed ∙ refl) h'
                ∙ rw ok (
                    ap (λ xs. xs ++ pauses d 1 (map logs_in later)) (rw ok at es)
                    ∙ append_assoc s.slept (d.reconnect_delay ∷ [])
                        (pauses d 1 (map logs_in later)))
            | inr bad ↦
                let (es, ed) = round_lem a s up in
                listen_loop-slept (suc n) later s' small
                  (doubled_again n d s.delay s'.delay e (rw bad at ed)) h'
                ∙ rw bad (
                    ap (λ xs. xs ++ pauses d (suc n) (map logs_in later)) (rw bad at es)
                    ∙ append_assoc s.slept (s.delay ∷ []) (pauses d (suc n) (map logs_in later))
                    ∙ ap (λ x. s.slept ++ x ∷ pauses d (suc n) (map logs_in later)) e)
          ]
        ]
  ]

abbrev pub InRange : Delays → ℕ → Type 0
InRange d p = (d.reconnect_delay ≤ p) × (p ≤ d.max_reconnect_delay)

doubled_le : (n r : ℕ) → r ≤ doubled n r
unfolding doubled
doubled_le zero r = omega arith
doubled_le (suc n) r = omega (arith, doubled_le n r)

pauses-InRange :
    (d : Delays) (n : ℕ) (oks : List Bool)
    → d.reconnect_delay ≤ d.max_reconnect_delay
    → All (InRange d) (pauses d n oks)
unfolding pauses
pauses-InRange d n [] h = tt
pauses-InRange d n (true ∷ oks) h = ((omega arith, h), pauses-InRange d 1 oks h)
pauses-InRange d n (false ∷ oks) h =
    let low = doubled_le n d.reconnect_delay in
    ((omega arith, omega arith), pauses-InRange d (suc n) oks h)

-- A connection that nobody stops pauses after each attempt: `reconnect_delay` after one that had
-- logged in, twice the last pause after one that had not, and never more than
-- `max_reconnect_delay`; so every pause is between the two. The connection starts anew, and its
-- least pause is not above the greatest.
pub listen-pauses :
    (d : Delays) (l : Listener) (token : String) (script : List Attempt) (t : Traffic)
    → d.reconnect_delay ≤ d.max_reconnect_delay
    → (listen d l token none script t).running ≡ true
    → ((listen d l token none script t).slept ≡ pauses d 0 (map logs_in script))
      × All (InRange d) (listen d l token none script t).slept
unfolding listen doubled
listen-pauses d l token script t small h =
    let e = listen_loop-slept d l token 0 script _ small (omega arith) h in
    (e, rw e (pauses-InRange d 0 (map logs_in script) small))
