-- ===== src/Client/Agent/Reauth.antt =====
-- A call that the broker refuses with 401 (src/claw_msg/client/agent.py): the agent registers with
-- its old token and calls again.
use claw_msg.Prelude.{
  ◌≡◌, refl, sym, ap, ◌∙◌, String, true, Option, none, some, str_truthy, eq_refl, some-injective,
}
use claw_msg.Json.{Json}
use claw_msg.Credentials.{store_credentials}
use claw_msg.Client.Http.{HttpClient, Request, http_client, register_request}
use claw_msg.Client.Calls.{
  http_status_error, Outcome, done, returns, raises, Transport, Call, Response, json_of, text_at,
  proceed, ◌>>=◌, ◌>>◌,
}
use claw_msg.Client.Agent.{
  AgentState, Host, registration_of, request_json, take_registration, register, logged_out,
  reauthenticate, is_401, with_reauth, resume, get_http, http_call, client_of,
}

module _ {S : Type 0} (send : Transport S) where
  -- The client that is there writes the agent's token to its broker.
  abbrev pub Carries : AgentState → Type 0
  Carries a =
      (c : HttpClient)
      → a.http ≡ some c
      → (t : String) × (a.token ≡ some t) × (c ≡ http_client a.broker_url t)

  -- The agent with the client of its token.
  abbrev pub with_client : Host S → String → Host S
  with_client w t = record w {
    agent = record w.agent { http = some (http_client w.agent.broker_url t) };
  }

  abbrev set_http : Host S → Option HttpClient → Host S
  set_http w o = record w { agent = record w.agent { http = o } }

  client_of_lem :
      (o : Option HttpClient) (w : Host S) (t : String)
      → w.agent.http ≡ o
      → w.agent.token ≡ some t
      → str_truthy t ≡ true
      → Carries w.agent
      → client_of send o w ≡ (returns (http_client w.agent.broker_url t), with_client w t)
  client_of_lem none w t e h k carries = rw (h, k) refl
  client_of_lem (some c) w t e h k carries =
      let (t', h', e') = carries c e in
      let same : c ≡ http_client w.agent.broker_url t =
        e' ∙ ap (http_client w.agent.broker_url) (some-injective (sym h' ∙ h)) in
      λ i. (returns (same i), set_http w ((e ∙ ap some same) i))

  -- With a token, each request is made by the client of that token.
  pub http_call_lem :
      (f : HttpClient → Request) (w : Host S) (t : String)
      → w.agent.token ≡ some t
      → str_truthy t ≡ true
      → Carries w.agent
      → http_call send f w
        ≡ request_json send (f (http_client w.agent.broker_url t)) (with_client w t)
  unfolding http_call get_http
  http_call_lem f w t h k carries =
      ap (λ (r : Outcome HttpClient × Host S). proceed r.0 (λ c. request_json send (f c)) r.1)
        (client_of_lem w.agent.http w t refl h k carries)

  pub request_json_lem :
      (r : Request) (w : Host S) (o : Option Response) (s : S)
      → send r w.outside ≡ (o, s)
      → request_json send r w ≡ (json_of o, record w { outside = s })
  unfolding request_json
  request_json_lem r w o s e = rw e refl

  -- The answer to the registration with the old token.
  abbrev pub registers : AgentState → String → S → Option Response × S
  registers a t s =
      send (register_request (http_client a.broker_url "") (registration_of a (some t))) s

  -- The host after a registration.
  abbrev pub registered : Host S → String → String → Host S
  registered w id t = record w {
    agent = record w.agent {
      agent_id = some id;
      token = some t;
      http = some (http_client w.agent.broker_url t);
    };
    creds = store_credentials w.agent.broker_url id t w.agent.name w.creds;
  }

  take_registration_lem :
      (body : Json) (w : Host S) (id t : String)
      → text_at "agent_id" body ≡ returns id
      → text_at "token" body ≡ returns t
      → take_registration send body w ≡ (returns id, registered w id t)
  unfolding take_registration
  take_registration_lem body w id t e h = rw (e, h) refl

  reauthenticate_lem :
      (w : Host S) (t : String)
      → w.agent.token ≡ some t
      → reauthenticate send (some t) w
        ≡ (register send (some t) >>= λ id. done tt) (logged_out send w)
  unfolding reauthenticate
  reauthenticate_lem w t h = rw (reauthenticate, h, eq_refl t) refl

  -- A first call that is refused, up to the registration.
  pub refused_lem :
      {A : Type 0} (op : Call (Host S) A) (w v : Host S) (t : String)
      → op w ≡ (raises (http_status_error 401), v)
      → w.agent.token ≡ some t
      → v.agent.token ≡ some t
      → with_reauth send op w
        ≡ ((register send (some t) >>= λ id. done tt) >>= λ u. op) (logged_out send v)
  unfolding with_reauth
  refused_lem op w v t e h k =
      ap (λ (x : Outcome _ × Host S). resume send op w.agent.token (is_401 send x.0) x.0 x.1) e
      ∙ ap (λ o. (reauthenticate send o >> op) v) h
      ∙ ap (λ (r : Outcome (Unit {0}) × Host S). proceed r.0 (λ u. op) r.1)
          (reauthenticate_lem v t k)

  pub register_lem :
      (w : Host S) (t : String) (o : Option Response) (s : S)
      → registers w.agent t w.outside ≡ (o, s)
      → register send (some t) w
        ≡ proceed (json_of o) (take_registration send) (record w { outside = s })
  unfolding register
  register_lem w t o s e = rw (request_json_lem, e) refl

logged_in_call :
    {S : Type 0} (send : Transport S) (f : HttpClient → Request) (w : Host S) (c : HttpClient)
    → w.agent.http ≡ some c
    → http_call send f w ≡ request_json send (f c) w
unfolding http_call get_http
logged_in_call send f w c e = rw e refl

-- A call over HTTP that the broker refuses with 401 is made again, once, with the token of a new
-- registration that shows the old token; the new identity is what the agent then holds, and what
-- the file of the host holds in place of the old. The agent has a token, its client carries it, and
-- the registration is answered with an identity.
pub refused_call_is_repeated :
    {S : Type 0} (send : Transport S) (f : HttpClient → Request) (w : Host S) (t id t' : String)
    (o o' : Option Response) (s s' : S) (body : Json)
    → w.agent.token ≡ some t
    → str_truthy t ≡ true
    → Carries send w.agent
    → send (f (http_client w.agent.broker_url t)) w.outside ≡ (o, s)
    → json_of o ≡ raises (http_status_error 401)
    → registers send w.agent t s ≡ (o', s')
    → json_of o' ≡ returns body
    → text_at "agent_id" body ≡ returns id
    → text_at "token" body ≡ returns t'
    → with_reauth send (http_call send f) w
      ≡ request_json send
          (f (http_client w.agent.broker_url t'))
          (registered send (record (logged_out send w) { outside = s' }) id t')
refused_call_is_repeated {S = S} send f w t id t' o o' s s' body h k carries first refused second
      accepted new_id new_token =
    let v = record (with_client send w t) { outside = s } in
    let c = http_client w.agent.broker_url t in
    let e1 : http_call send f w ≡ (raises (http_status_error 401), v) =
      http_call_lem send f w t h k carries
      ∙ request_json_lem send (f c) (with_client send w t) o s first
      ∙ ap (λ r. (r, v)) refused in
    let u = record (logged_out send w) { outside = s' } in
    let e2 : register send (some t) (logged_out send v) ≡ (returns id, registered send u id t') =
      register_lem send (logged_out send v) t o' s' second
      ∙ ap (λ r. proceed r (take_registration send) u) accepted
      ∙ take_registration_lem send body u id t' new_id new_token in
    refused_lem send (http_call send f) w v t e1 h h
    ∙ ap
        (λ (r : Outcome String × Host S).
          proceed (proceed r.0 (λ id. done tt) r.1).0 (λ x. http_call send f)
            (proceed r.0 (λ id. done tt) r.1).1)
        e2
    ∙ logged_in_call send f (registered send u id t') (http_client w.agent.broker_url t') refl
