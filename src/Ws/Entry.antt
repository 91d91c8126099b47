-- ===== src/Ws/Entry.antt =====
-- Who enters (`websocket_endpoint`, src/claw_msg/server/routes_ws.py).
use Prim.Native.String.{len}
use claw_msg.Prelude.{
  ℕ, ◌≡◌, refl, String, true, Option, none, some, List, [], ◌∷◌, ◌++◌, ◌⊎◌, inl, inr, ltb,
  str_truthy, Bool-cases,
}
use claw_msg.Json.{Json, null, boolean, number, str, array, object, Fields, end, get_field, get_or}
use claw_msg.Schema.{Tables}
use claw_msg.Auth.{Crypto, authenticate_token}
use claw_msg.Exec.{auth_fail, Socket, Env, World, Error, Result, ok, raised}
use claw_msg.Ws.Frames.{Parsers, send_text, is_type, max_ws_frame_size_bytes}
use claw_msg.Ws.Session.{
  Event, timeout, received, Handshake, accepted, refused, close_with, refuse_token, accept_agent,
  check_token, check_auth, check_size, token_of, handshake, serve, websocket_endpoint,
}

-- Nothing but frames has come of it.
abbrev pub Keeps : World → World → Type 0
Keeps v w = (w.db ≡ v.db) × (w.connections ≡ v.connections) × (w.buckets ≡ v.buckets)

-- The first frame is an `auth` frame with a token of the agent.
abbrev pub Authenticates : Crypto → Parsers → Event → Tables → String → Type 0
Authenticates c p first t agent =
    (raw : String) × (fs : Fields) × (token : String) × (first ≡ received raw)
    × (p.loads raw ≡ some (object fs))
    × (is_type "auth" (get_field "type" fs) ≡ true)
    × (token_of (get_or (get_field "payload" fs) (object end)) ≡ some token)
    × (authenticate_token c token t ≡ some agent)

abbrev Handled : (String → Type 0) → World → Result Handshake × World → Type 0
Handled Q w r = Keeps w r.1 × ((agent : String) → r.0 ≡ ok (accepted agent) → Q agent)

module _ (Q : String → Type 0) (env : Env) (ws : Socket) where
  close_with-Handled : (code : ℕ) (w : World) → Handled Q w (close_with env ws code w)
  unfolding send_text
  close_with-Handled code w = elim (Bool-cases (env.alive ws)) [
    | inl e ↦ rw e ((refl, refl, refl), λ agent h. cc)
    | inr e ↦ rw e ((refl, refl, refl), λ agent h. cc)
  ]

  refuse_token-Handled : (w : World) → Handled Q w (refuse_token env ws w)
  unfolding send_text
  refuse_token-Handled w = elim (Bool-cases (env.alive ws)) [
    | inl e ↦ rw e (close_with-Handled 4003 (record w { wire = w.wire ++ (ws, auth_fail) ∷ [] }))
    | inr e ↦ rw e ((refl, refl, refl), λ agent h. cc)
  ]

  accept_agent-Handled :
      (o : Option String) (w : World)
      → ((agent : String) → o ≡ some agent → Q agent)
      → Handled Q w (accept_agent env ws o w)
  unfolding send_text
  accept_agent-Handled none w q = refuse_token-Handled w
  accept_agent-Handled (some agent) w q = elim (Bool-cases (str_truthy agent)) [
    | inr t ↦ rw t (refuse_token-Handled w)
    | inl t ↦ elim (Bool-cases (env.alive ws)) [
      | inl e ↦ rw (t, e) ((refl, refl, refl), λ a h. q a cc)
      | inr e ↦ rw (t, e) ((refl, refl, refl), λ a h. cc)
    ]
  ]

  raised-Handled : (w : World) {x : Error} → Handled Q w (raised x, w)
  raised-Handled w = ((refl, refl, refl), λ agent h. cc)

module _ (c : Crypto) (p : Parsers) (env : Env) (ws : Socket) (raw : String) (w : World) where
  abbrev Q : String → Type 0
  Q agent = Authenticates c p (received raw) w.db.tables agent

  check_fields-Handled :
      (fs : Fields) (o : Option String)
      → p.loads raw ≡ some (object fs)
      → is_type "auth" (get_field "type" fs) ≡ true
      → token_of (get_or (get_field "payload" fs) (object end)) ≡ o
      → Handled Q w (check_token c env ws o w)
  check_fields-Handled fs none l t k = raised-Handled Q env ws w
  check_fields-Handled fs (some token) l t k =
      accept_agent-Handled Q env ws (authenticate_token c token w.db.tables) w
        (λ agent a. (raw, fs, token, refl, l, t, k, a))

  check_auth-Handled : (j : Json) → p.loads raw ≡ some j → Handled Q w (check_auth c env ws j w)
  check_auth-Handled null l = raised-Handled Q env ws w
  check_auth-Handled (boolean b) l = raised-Handled Q env ws w
  check_auth-Handled (number n) l = raised-Handled Q env ws w
  check_auth-Handled (str s) l = raised-Handled Q env ws w
  check_auth-Handled (array xs) l = raised-Handled Q env ws w
  check_auth-Handled (object fs) l = elim (Bool-cases (is_type "auth" (get_field "type" fs))) [
    | inr t ↦ rw t (close_with-Handled Q env ws 4002 w)
    | inl t ↦
        rw t (
          check_fields-Handled fs (token_of (get_or (get_field "payload" fs) (object end))) l t
            refl)
  ]

  check_size-Handled :
      (o : Option Json) → p.loads raw ≡ o → Handled Q w (check_size c env ws raw o w)
  check_size-Handled none l = close_with-Handled Q env ws 4001 w
  check_size-Handled (some j) l = elim (Bool-cases (ltb max_ws_frame_size_bytes (len raw))) [
    | inl e ↦ rw e (close_with-Handled Q env ws 4004 w)
    | inr e ↦ rw e (check_auth-Handled j l)
  ]

handshake-Handled :
    (c : Crypto) (p : Parsers) (env : Env) (ws : Socket) (first : Event) (w : World)
    → Handled (Authenticates c p first w.db.tables) w (handshake c p env ws first w)
unfolding handshake
handshake-Handled c p env ws timeout w =
    close_with-Handled (Authenticates c p timeout w.db.tables) env ws 4001 w
handshake-Handled c p env ws (received raw) w =
    check_size-Handled c p env ws raw w (p.loads raw) refl

serve_cases :
    (p : Parsers) (env last : Env) (ws : Socket) (events : List (Env × Event))
    (r : Result Handshake) (w v : World)
    → Keeps w v
    → Keeps w (serve p env last ws events r v) ⊎ ((agent : String) × (r ≡ ok (accepted agent)))
serve_cases p env last ws events (raised x) w v k = inl k
serve_cases p env last ws events (ok refused) w v k = inl k
serve_cases p env last ws events (ok (accepted agent)) w v k = inr (agent, refl)

-- Whatever a client sends, either its first frame is an `auth` frame whose token is that of an
-- agent, or the whole connection changes neither the database nor the registered sockets nor the
-- rates.
pub websocket_endpoint_guarded :
    (c : Crypto) (p : Parsers) (env last : Env) (ws : Socket) (first : Event)
    (events : List (Env × Event)) (w : World)
    → Keeps w (websocket_endpoint c p env last ws first events w)
      ⊎ ((agent : String) × Authenticates c p first w.db.tables agent)
unfolding websocket_endpoint
websocket_endpoint_guarded c p env last ws first events w =
    let (k, q) = handshake-Handled c p env ws first w in
    elim (serve_cases p env last ws events (handshake c p env ws first w).0 w
      (handshake c p env ws first w).1 k) [
        | inl same ↦ inl same
        | inr (agent, e) ↦ inr (agent, q agent e)
      ]
