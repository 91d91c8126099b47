-- ===== src/Messages/Checks.antt =====
-- What a message has passed when `send_message` returns
-- (src/claw_msg/server/routes_messages.py).
use claw_msg.Prelude.{
  ℕ, ◌≡◌, refl, sym, ap, ap₂, ◌∙◌, String, Bool, true, false, Option, none, some, arith, Bool-cases,
  inl, inr, if◌then◌else◌,
}
use claw_msg.Schema.{commit, message_fits}
use claw_msg.RateLimit.{allow}
use claw_msg.Exec.{
  MsgData, message_receive, Env, World, ok, raised, http, raise_if, gets, bind-eq-ok, raised-ne-ok,
  ok-injective, pure, ◌>>=◌, ◌>>◌,
}
use claw_msg.MessageValidation.{get_message_target_error}
use claw_msg.Messages.{
  MessageSendRequest, no_target, resolve_to, check_rate, check_target, raise_error, message_row,
  add_message, store_message, msg_data_of, deliver, store_and_deliver, check_and_send, send_message,
}

-- The state after the rate limit, and the one after the `INSERT` and its commit.
abbrev pub after_rate : Env → String → World → World
after_rate env sender w = record w {
  buckets = (allow env.config.rate_limit_per_min env.monotonic sender w.buckets).0;
}

unfoldable pub after_store : Env → String → Option String → MessageSendRequest → World → World
unfolding commit
after_store env sender to req w = record w {
  db = commit (record w.db { tables = add_message (message_row env sender to req) w.db.tables });
}

-- What holds when `send_message` has returned `msg` and left `w'`.
pub record IsSent (env : Env) (req : MessageSendRequest) (sender : String) (w : World)
    (msg : MsgData) (w' : World) : Type 0 where
  pub to : Option String
  pub targeted : no_target req ≡ false
  pub resolved : resolve_to req.to w ≡ (ok to, w)
  pub in_rate : (allow env.config.rate_limit_per_min env.monotonic sender w.buckets).1 ≡ true
  pub permitted : get_message_target_error sender to req.room_id w.db.tables ≡ none
  pub fits : message_fits w.db.tables (message_row env sender to req) ≡ true
  pub answered : msg ≡ msg_data_of env sender to req (after_store env sender to req w).db.tables
  pub done :
      deliver env env.uuid
        (message_receive msg)
        sender
        to
        req.room_id
        (after_store env sender to req (after_rate env sender w))
      ≡ (ok tt, w')

raise_if-ok :
    (b : Bool) (w : World) {u : Unit {0}} {w' : World}
    → raise_if b (http 400 "Must specify 'to' or 'room_id'") w ≡ (ok u, w')
    → b ≡ false
raise_if-ok true w h = absurd (raised-ne-ok (ap (λ p. p.0) h))
raise_if-ok false w h = refl

resolve_to_world : (o : Option String) (w : World) → (resolve_to o w).1 ≡ w
resolve_to_world none w = refl
resolve_to_world (some name) w = ground arith

check_target_world :
    (sender : String) (to room : Option String) (w : World) → (check_target sender to room w).1 ≡ w
check_target_world sender to room w = ground arith

raise_error-ok :
    (o : Option (ℕ × String)) (w : World) {u : Unit {0}} {w' : World}
    → raise_error o w ≡ (ok u, w')
    → o ≡ none
raise_error-ok none w h = refl
raise_error-ok (some e) w h = absurd (raised-ne-ok (ap (λ p. p.0) h))

store_message_parts :
    (env : Env) (sender : String) (to : Option String) (req : MessageSendRequest) (w : World)
    {u : Unit {0}} {w' : World}
    → store_message env sender to req w ≡ (ok u, w')
    → (message_fits w.db.tables (message_row env sender to req) ≡ true)
      × (w' ≡ after_store env sender to req w)
unfolding store_message after_store
store_message_parts env sender to req w h =
    elim (Bool-cases (message_fits w.db.tables (message_row env sender to req))) [
      | inl e ↦ (e, sym (ap (λ p. p.1) (rw e at h)))
      | inr e ↦ absurd (raised-ne-ok (ap (λ p. p.0) (rw e at h)))
    ]

raise_if_world :
    (b : Bool) (w : World) → (raise_if b (http 400 "Must specify 'to' or 'room_id'") w).1 ≡ w
raise_if_world true w = refl
raise_if_world false w = refl

allowed_rate :
    (b : Bool) {u : Unit {0}}
    → (if b then ok tt else raised (http 429 "Rate limit exceeded")) ≡ ok u
    → b ≡ true
allowed_rate true h = refl
allowed_rate false h = absurd (raised-ne-ok h)

store_and_deliver-ok :
    (env : Env) (req : MessageSendRequest) (sender : String) (to : Option String) (w : World)
    {msg : MsgData} {w' : World}
    → store_and_deliver env req sender to w ≡ (ok msg, w')
    → (message_fits w.db.tables (message_row env sender to req) ≡ true)
      × (msg ≡ msg_data_of env sender to req (after_store env sender to req w).db.tables)
      × (deliver env env.uuid
            (message_receive msg)
            sender
            to
            req.room_id
            (after_store env sender to req w)
          ≡ (ok tt, w'))
store_and_deliver-ok env req sender to w {msg} {w'} h =
    let (u, stored, rest) =
      bind-eq-ok (store_message env sender to req)
        (λ _. gets (λ v. msg_data_of env sender to req v.db.tables) >>= λ m.
          deliver env env.uuid (message_receive m) sender to req.room_id >> pure m)
        w h in
    let (fits, left) = store_message_parts env sender to req w stored in
    let m = msg_data_of env sender to req (store_message env sender to req w).1.db.tables in
    let (v, sent, last) =
      bind-eq-ok (deliver env env.uuid (message_receive m) sender to req.room_id) (λ _. pure m)
        (store_message env sender to req w).1 rest in
    let same : m ≡ msg = ok-injective (ap (λ p. p.0) last) in
    let ended = ap (λ p. p.1) last in
    (
      fits,
      sym same ∙ ap (λ x. msg_data_of env sender to req x.db.tables) left,
      ap₂ (λ x y. deliver env env.uuid (message_receive x) sender to req.room_id y) (sym same)
            (sym left)
          ∙ sent
          ∙ (λ i. (ok tt, ended i)),
    )

-- A call that has returned has passed every check, stored the message and made the deliveries.
pub send_message-IsSent :
    (env : Env) (req : MessageSendRequest) (sender : String) (w : World) {msg : MsgData}
    {w' : World}
    → send_message env req sender w ≡ (ok msg, w')
    → IsSent env req sender w msg w'
unfolding send_message after_store
send_message-IsSent env req sender w {msg} {w'} h =
    let (u, guarded, after_guard) =
      bind-eq-ok (raise_if (no_target req) (http 400 "Must specify 'to' or 'room_id'"))
        (λ _. resolve_to req.to >>= λ to. check_and_send env req sender to) w h in
    let targeted = raise_if-ok (no_target req) w guarded in
    let from_start = raise_if_world (no_target req) w in
    let (to, found, after_found) =
      bind-eq-ok (resolve_to req.to) (λ to. check_and_send env req sender to) w
        (rw from_start at after_guard) in
    let same_world = resolve_to_world req.to w in
    let (u', limited, after_rate_check) =
      bind-eq-ok (check_rate env sender)
        (λ _. check_target sender to req.room_id >> store_and_deliver env req sender to) w
        (rw same_world at after_found) in
    let w₁ = after_rate env sender w in
    let (u'', allowed_to, after_target) =
      bind-eq-ok (check_target sender to req.room_id) (λ _. store_and_deliver env req sender to) w₁
        after_rate_check in
    let (fits, answered, done) =
      store_and_deliver-ok env req sender to w₁
        (rw (check_target_world sender to req.room_id w₁) at after_target) in
    record {
      to = to;
      targeted = targeted;
      resolved = found ∙ (λ i. (ok to, same_world i));
      in_rate = allowed_rate _ (ap (λ p. p.0) limited);
      permitted = raise_error-ok _ w₁ allowed_to;
      fits = fits;
      answered = answered;
      done = done;
    }
