-- ===== src/Client/Replies/Refinement.antt =====
-- What a run of events leaves in the future of an `ask` (src/claw_msg/client/agent.py).
use claw_msg.Prelude.{
  ℕ, ◌+◌, suc, ◌≤◌, ◌<◌, ◌≡◌, refl, sym, ap, ◌∙◌, String, Bool, true, false, Option, none, some,
  List, [], ◌∷◌, length, ◌==◌, ◌||◌, arith, if◌then◌else◌, Bool-cases, none-ne-some, str_truthy,
  opt_eq, All, any, inl, inr,
}
use mathlib.Core.Bool.{true≢false}
use claw_msg.Prelude.Dict.{get}
use claw_msg.Client.Replies.{
  Message, Future, waiting, resolved, Replies, resolve_reply, early_reply_ttl, early_reply_max_size,
}
use claw_msg.Client.Replies.Events.{Event, asked, heard, ended, run_event, run_events, new_replies}
use claw_msg.Client.Replies.FirstReply.{
  spec_ask, spec_hear, Asking, silent, waits, early_reply, got, spec_event, spec_events, Refines,
  Pairs,
}
use claw_msg.Client.Replies.Steps.{Holds, ask-Holds, hear-Holds, end-Holds}

-- All is heard and asked before the first reply can expire.
abbrev pub InTime : ℕ → Event → Type 0
InTime start (asked now j g) = (start ≤ now) × (now < start + early_reply_ttl)
InTime start (heard now m) = (start ≤ now) × (now < start + early_reply_ttl)
InTime start (ended j g) = Unit

module _ (k : String) (f start : ℕ) (named : str_truthy k ≡ true) where
  event-Holds :
      (n : ℕ) (e : Event) (s : Replies) (a : Asking)
      → InTime start e
      → Pairs k f e
      → Holds k f start (suc n) s a
      → Holds k f start n (run_event e s) (spec_event k f e a)
  unfolding run_event spec_event resolve_reply
  event-Holds n (asked now j g) s a t pair h = ask-Holds k f start n now j g s a t.1 pair h
  event-Holds n (heard now m) s a t pair h =
      hear-Holds k f start n now m t.0 t.1 m.reply_to s a named h
  event-Holds n (ended j g) s a t pair h = end-Holds k f start n j g s a pair h

  run-Refines :
      (es : List Event) (s : Replies) (a : Asking)
      → All (InTime start) es
      → All (Pairs k f) es
      → Holds k f start (length es) s a
      → Refines k f (run_events es s) (spec_events k f es a)
  unfolding run_events spec_events
  run-Refines [] s a t pair h = h.2
  run-Refines (e ∷ es) s a t pair h =
      run-Refines es (run_event e s) (spec_event k f e a) t.1 pair.1
        (event-Holds (length es) e s a t.0 pair.0 h)

-- The tables of replies do what the specification says of a message: after every run of calls, in
-- whatever order, what they hold of the message `k` and of its future `f` is what the
-- specification holds. The run is no longer than the cache and than an early reply lives, `f` is
-- the future of `k` and of no other message, and `k` is not empty.
pub run_events-Refines :
    (k : String) (f start : ℕ) (es : List Event)
    → str_truthy k ≡ true
    → length es ≤ early_reply_max_size
    → All (InTime start) es
    → All (Pairs k f) es
    → Refines k f (run_events es new_replies) (spec_events k f es silent)
unfolding get
run_events-Refines k f start es named short t pair =
    run-Refines k f start named es new_replies silent t pair
      ((tt, omega arith), (λ j h. absurd (none-ne-some h)), (refl, refl, refl))

-- An `ask` for the message, its end, and a reply to it.
abbrev pub asks : String → Event → Bool
asks k (asked now j g) = j == k
asks k (heard now m) = false
asks k (ended j g) = false

abbrev pub ends : String → Event → Bool
ends k (asked now j g) = false
ends k (heard now m) = false
ends k (ended j g) = j == k

abbrev pub or_reply : Option Message → Option Message → Option Message
or_reply (some m) o = some m
or_reply none o = o

unfoldable pub first_reply : String → List Event → Option Message
first_reply k [] = none
first_reply k (heard now m ∷ es) =
    let later = first_reply k es in if opt_eq m.reply_to k then some m else later
first_reply k (asked now j g ∷ es) = first_reply k es
first_reply k (ended j g ∷ es) = first_reply k es

abbrev asking_of : Bool → Option Message → Asking
asking_of false none = silent
asking_of false (some m) = early_reply m
asking_of true none = waits
asking_of true (some m) = got m

-- What the future of an `ask` holds that is asked or not, and that a reply has come to or not.
abbrev pub answer : Bool → Option Message → Future
answer true (some m) = resolved m
answer true none = waiting
answer false o = waiting

module _ (k : String) (f : ℕ) where
  spec_ask-asking_of :
      (b : Bool) (o : Option Message) → spec_ask k f (asking_of b o) ≡ asking_of true o
  spec_ask-asking_of false none = refl
  spec_ask-asking_of false (some m) = refl
  spec_ask-asking_of true none = refl
  spec_ask-asking_of true (some m) = refl

  spec_hear-asking_of :
      (b : Bool) (o : Option Message) (m : Message)
      → spec_hear k f m (asking_of b o) ≡ asking_of b (or_reply o (some m))
  spec_hear-asking_of false none m = refl
  spec_hear-asking_of false (some m') m = refl
  spec_hear-asking_of true none m = refl
  spec_hear-asking_of true (some m') m = refl

or_reply_assoc :
    (o : Option Message) (m : Message) (l : Option Message)
    → or_reply (or_reply o (some m)) l ≡ or_reply o (some m)
or_reply_assoc none m l = refl
or_reply_assoc (some m') m l = refl

or_true : (b : Bool) → (b || true) ≡ true
or_true b = ground arith

spec_events-asking_of :
    (k : String) (f : ℕ) (es : List Event) (b : Bool) (o : Option Message)
    → any (ends k) es ≡ false
    → spec_events k f es (asking_of b o)
      ≡ asking_of (b || any (asks k) es) (or_reply o (first_reply k es))
unfolding spec_events spec_event any first_reply
spec_events-asking_of k f [] false none h = refl
spec_events-asking_of k f [] false (some m) h = refl
spec_events-asking_of k f [] true none h = refl
spec_events-asking_of k f [] true (some m) h = refl
spec_events-asking_of k f (asked now j g ∷ es) b o h = elim (Bool-cases (j == k)) [
  | inl e ↦ rw (e, spec_ask-asking_of, or_true) (spec_events-asking_of k f es true o h)
  | inr e ↦ rw e (spec_events-asking_of k f es b o h)
]
spec_events-asking_of k f (heard now m ∷ es) b o h = elim (Bool-cases (opt_eq m.reply_to k)) [
  | inl e ↦
      rw (e, spec_hear-asking_of)
        (spec_events-asking_of k f es b (or_reply o (some m)) h
          ∙ ap (asking_of (b || any (asks k) es)) (or_reply_assoc o m (first_reply k es)))
  | inr e ↦ rw e (spec_events-asking_of k f es b o h)
]
spec_events-asking_of k f (ended j g ∷ es) b o h = elim (Bool-cases (j == k)) [
  | inl e ↦ absurd (true≢false (sym (rw e refl) ∙ h))
  | inr e ↦
      let h' : any (ends k) es ≡ false = rw e at h in rw e (spec_events-asking_of k f es b o h')
]

-- Of what the specification says, the future.
Refines-answer :
    (k : String) (f : ℕ) (s : Replies) (b : Bool) (o : Option Message)
    → Refines k f s (asking_of b o)
    → s.futures f ≡ answer b o
Refines-answer k f s false none r = r.2
Refines-answer k f s false (some m) r = r.2
Refines-answer k f s true none r = r.2
Refines-answer k f s true (some m) r = r

-- An `ask` that has not ended gets the first reply to its message, whether that comes before the
-- `ask` waits or after, and among whatever other calls; without one it waits on. The run is no
-- longer than the cache and than an early reply lives, `f` is the future of `k` and of no other
-- message, and `k` is not empty.
pub ask_gets_first_reply :
    (k : String) (f start : ℕ) (es : List Event)
    → str_truthy k ≡ true
    → length es ≤ early_reply_max_size
    → All (InTime start) es
    → All (Pairs k f) es
    → any (ends k) es ≡ false
    → (run_events es new_replies).futures f ≡ answer (any (asks k) es) (first_reply k es)
ask_gets_first_reply k f start es named short t pair unended =
    Refines-answer k f (run_events es new_replies) (any (asks k) es) (first_reply k es) (
      rw (← spec_events-asking_of k f es false none unended)
        (run_events-Refines k f start es named short t pair))
