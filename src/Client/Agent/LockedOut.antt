-- ===== src/Client/Agent/LockedOut.antt =====
-- A refused call whose new registration fails, and one whose token another task has renewed
-- (src/claw_msg/client/agent.py).
use claw_msg.Prelude.{
  ◌≡◌, ◌≢◌, refl, ap, ◌∙◌, String, true, Option, none, some, str_truthy, eq_refl, eq_iff,
  Bool-cases, inl, inr, ◌==◌,
}
use claw_msg.Credentials.{get_credentials, remove_credentials, load}
use claw_msg.Prelude.Dict.{get-remove}
use claw_msg.Client.Http.{HttpClient, Request, http_client}
use claw_msg.Client.Calls.{
  ClientError, http_status_error, runtime_error, Outcome, raises, Transport, Call, Response,
  json_of, proceed, done, ◌>>◌,
}
use claw_msg.Client.Agent.{
  Host, take_registration, register, logged_out, is_renewed, reauthenticate, is_401, resume,
  with_reauth, get_http, http_call,
}
use claw_msg.Client.Agent.Reauth.{
  Carries, with_client, registers, http_call_lem, request_json_lem, refused_lem, register_lem,
}

-- The agent has nothing to log in with.
abbrev pub IsLockedOut : {S : Type 0} → Host S → Type 0
IsLockedOut w = (w.agent.token ≡ none) × (w.agent.http ≡ none) × (w.agent.agent_id ≡ none)

locked_call :
    {S : Type 0} (send : Transport S) (f : HttpClient → Request) (w : Host S)
    → IsLockedOut w
    → with_reauth send (http_call send f) w
      ≡ (raises (runtime_error "Must register or provide a token"), w)
unfolding with_reauth http_call get_http
locked_call send f w (h, k, l) = rw (k, h) refl

removed :
    {S : Type 0} (send : Transport S) (w : Host S) (id : String)
    → w.agent.agent_id ≡ some id
    → str_truthy id ≡ true
    → get_credentials id (logged_out send w).creds ≡ none
unfolding get_credentials remove_credentials
removed send w id h k = rw (h, k) (get-remove (load w.creds) id id ∙ rw (eq_refl id) refl)

-- When the broker refuses a call with 401 and the registration with the old token fails too, the
-- agent has lost its identity: the error comes out, the file of the host no longer holds the agent,
-- and every later call over HTTP raises before it asks the broker, so that no new attempt is made.
-- The agent has a token, its client carries it, and its id is not empty.
pub failed_registration_locks_out :
    {S : Type 0} (send : Transport S) (f g : HttpClient → Request) (w : Host S) (t id : String)
    (o o' : Option Response) (s s' : S) (e : ClientError)
    → w.agent.token ≡ some t
    → str_truthy t ≡ true
    → Carries send w.agent
    → w.agent.agent_id ≡ some id
    → str_truthy id ≡ true
    → send (f (http_client w.agent.broker_url t)) w.outside ≡ (o, s)
    → json_of o ≡ raises (http_status_error 401)
    → registers send w.agent t s ≡ (o', s')
    → json_of o' ≡ raises e
    → let after = with_reauth send (http_call send f) w in
      (after.0 ≡ raises e)
      × (get_credentials id after.1.creds ≡ none)
      × (with_reauth send (http_call send g) after.1
          ≡ (raises (runtime_error "Must register or provide a token"), after.1))
failed_registration_locks_out {S = S} send f g w t id o o' s s' e h k carries named there first
      refused second failed =
    let v = record (with_client send w t) { outside = s } in
    let c = http_client w.agent.broker_url t in
    let u = record (logged_out send w) { outside = s' } in
    let e1 : http_call send f w ≡ (raises (http_status_error 401), v) =
      http_call_lem send f w t h k carries
      ∙ request_json_lem send (f c) (with_client send w t) o s first
      ∙ ap (λ r. (r, v)) refused in
    let e2 : register send (some t) (logged_out send v) ≡ (raises e, u) =
      register_lem send (logged_out send v) t o' s' second
      ∙ ap (λ r. proceed r (take_registration send) u) failed in
    let end : with_reauth send (http_call send f) w ≡ (raises e, u) =
      refused_lem send (http_call send f) w v t e1 h h
      ∙ ap
          (λ (r : Outcome String × Host S).
            proceed (proceed r.0 (λ id. done tt) r.1).0 (λ x. http_call send f)
              (proceed r.0 (λ id. done tt) r.1).1)
          e2 in
    let after = (with_reauth send (http_call send f) w).1 in
    (
      ap (λ r. r.0) end,
      ap (λ r. get_credentials id r.1.creds) end ∙ removed send w id named there,
      locked_call send g after (rw (ap (λ r. r.1) end) (refl, refl, refl)),
    )

-- A call that is refused after another task has renewed the token is made again at once: the agent
-- does not register a second time. Here the call stands for all that happens until its reply is
-- there, the other tasks included.
pub renewed_token_is_reused :
    {S A : Type 0} (send : Transport S) (operation : Call (Host S) A) (w v : Host S) (t t' : String)
    → w.agent.token ≡ some t
    → operation w ≡ (raises (http_status_error 401), v)
    → v.agent.token ≡ some t'
    → t' ≢ t
    → with_reauth send operation w ≡ operation v
unfolding with_reauth reauthenticate
renewed_token_is_reused {S = S} send operation w v t t' h refused k other =
    let renewed : is_renewed send (some t) v.agent.token ≡ true =
      rw k (elim (Bool-cases (t' == t)) [
        | inl e ↦ let z = eq_iff t' t in absurd (other (z.0 e))
        | inr e ↦ rw e refl
      ]) in
    ap (λ (x : Outcome _ × Host S). resume send operation w.agent.token (is_401 send x.0) x.0 x.1)
      refused
    ∙ ap (λ o. (reauthenticate send o >> operation) v) h
    ∙ rw (reauthenticate, renewed) refl
