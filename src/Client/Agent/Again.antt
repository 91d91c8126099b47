-- ===== src/Client/Agent/Again.antt =====
-- The agent that a host has made once is found again (src/claw_msg/client/agent.py and
-- src/claw_msg/client/credentials.py).
use Prim.Native.Char.{code}
use claw_msg.Prelude.{
  ◌≡◌, refl, sym, ap, ap₂, ◌∙◌, String, ◌&&◌, Option, none, some, Bool-cases, inl, inr, nat_eq,
  ◌==◌,
}
use claw_msg.Json.{Json}
use claw_msg.Credentials.{
  CredsFile, normalize_broker_url, find_credentials, store_credentials, with_key, is_at, load,
}
use claw_msg.Credentials.Stored.{find-store_credentials}
use claw_msg.Table.{find_first}
use claw_msg.Client.Http.{http_client}
use claw_msg.Client.Calls.{
  http_status_error, request_error, key_error, type_error, runtime_error, Outcome, returned,
  raises-ne-returns, returns-injective, returns, raises, value_error, Transport, text_at,
}
use claw_msg.Client.Agent.{AgentState, Host, register, take_registration, request_json}
use claw_msg.Client.Agent.Methods.{
  name_or, new_agent, from_found, from_credentials, or_register, agent_after, connect_or_register,
  meta_or_empty,
}

-- Without its trailing slashes a URL has none.
normalize_twice :
    (s : String) → normalize_broker_url (normalize_broker_url s) ≡ normalize_broker_url s
unfolding normalize_broker_url
normalize_twice String.[] = refl
normalize_twice (String.◌∷◌ c s) =
    elim (Bool-cases (nat_eq (code c) b'/' && (normalize_broker_url s == ""))) [
      | inl e ↦ rw e refl
      | inr e ↦ rw (e, normalize_twice s, e) refl
    ]

-- What a registration that returns has written.
abbrev Writes : {S : Type 0} → Host S → Host S → Type 0
Writes w v =
    (id : String) × (t : String) × (v.agent.token ≡ some t)
    × (v.agent.agent_id ≡ some id)
    × (v.creds ≡ store_credentials w.agent.broker_url id t w.agent.name w.creds)

take_registration-Writes :
    {S : Type 0} (send : Transport S) (body : Json) (w v : Host S) {x : String}
    → take_registration send body w ≡ (returns x, v)
    → Writes w v
unfolding take_registration
take_registration-Writes send body w v h =
    let (id, e, k) = returned (text_at "agent_id" body) _ w h in
    let (t, e', k') = returned (text_at "token" body) _ _ k in
    let same = ap (λ p. p.1) k' in
    (
      id,
      t,
      ap (λ (u : Host _). u.agent.token) (sym same),
      ap (λ (u : Host _). u.agent.agent_id) (sym same),
      ap (λ (u : Host _). u.creds) (sym same),
    )

register-Writes :
    {S : Type 0} (send : Transport S) (w v : Host S) {x : String}
    → register send none w ≡ (returns x, v)
    → Writes w v
unfolding register request_json
register-Writes send w v h =
    let (body, e, k) = returned _ (take_registration send) _ h in
    take_registration-Writes send body _ v k

find-normalize :
    (url name : String) (file : CredsFile)
    → find_credentials url name file ≡ find_credentials (normalize_broker_url url) name file
unfolding find_credentials
find-normalize url name file =
    ap (λ u. with_key (find_first (λ e. is_at u name e.1) (load file))) (sym (normalize_twice url))

-- The agent of a name and an identity.
abbrev identified : String → String → String → String → AgentState
identified url name id t =
    let a = new_agent url (name_or (some name) name) in
    record a { token = some t; agent_id = some id; http = some (http_client a.broker_url t) }

-- The credentials that are stored for an agent make it again.
stored_again :
    (url name id t : String) (file : CredsFile)
    → from_credentials url name (store_credentials (normalize_broker_url url) id t name file)
      ≡ returns (identified url name id t)
unfolding from_credentials
stored_again url name id t file =
    let after = store_credentials (normalize_broker_url url) id t name file in
    ap (from_found url name) (
      find-normalize url name after
      ∙ (find-store_credentials (normalize_broker_url url) id t name file).0)

-- What the first call leaves for a second one.
abbrev FoundAgain : String → String → AgentState → CredsFile → Type 0
FoundAgain url name a file =
    (b : AgentState) × (from_credentials url name file ≡ returns b)
    × (b.token ≡ a.token)
    × (b.agent_id ≡ a.agent_id)

agent_after_returned :
    {S A : Type 0} (r : Outcome A × Host S) {b : AgentState} {file : CredsFile} {s : S}
    → agent_after r ≡ (returns b, (file, s))
    → (x : A) × (r ≡ (returns x, r.1)) × (r.1.agent ≡ b) × (r.1.creds ≡ file)
agent_after_returned (returns x, w) h =
    (x, refl, returns-injective (ap (λ p. p.0) h), ap (λ p. p.1.0) h)
agent_after_returned (raises e, w) h = absurd (raises-ne-returns (ap (λ p. p.0) h))

or_register-FoundAgain :
    {S : Type 0} (send : Transport S) (url name : String) (a : AgentState) (r : Outcome AgentState)
    (file : CredsFile) (s : S) {b : AgentState} {file' : CredsFile} {s' : S}
    → a.broker_url ≡ normalize_broker_url url
    → a.name ≡ name
    → from_credentials url name file ≡ r
    → or_register send a r file s ≡ (returns b, (file', s'))
    → FoundAgain url name b file'
or_register-FoundAgain send url name a (returns found) file s hu hn e h =
    let eb = returns-injective (ap (λ p. p.0) h) in
    let ef = ap (λ p. p.1.0) h in
    (
      found,
      ap (from_credentials url name) (sym ef) ∙ e,
      ap (λ (x : AgentState). x.token) eb,
      ap (λ (x : AgentState). x.agent_id) eb,
    )
or_register-FoundAgain {S = S} send url name a (raises (value_error m)) file s hu hn e h =
    let w : Host S = record { agent = a; creds = file; outside = s } in
    let (x, k, l, kept) = agent_after_returned (register send none w) h in
    let (id, t, ht, hi, hc) = register-Writes send w (register send none w).1 k in
    let stored = sym kept ∙ hc ∙ ap₂ (λ u n. store_credentials u id t n file) hu hn in
    (
      identified url name id t,
      ap (from_credentials url name) stored ∙ stored_again url name id t file,
      sym ht ∙ ap (λ (y : AgentState). y.token) l,
      sym hi ∙ ap (λ (y : AgentState). y.agent_id) l,
    )
or_register-FoundAgain send url name a (raises (http_status_error n)) file s hu hn e h =
    absurd (raises-ne-returns (ap (λ p. p.0) h))
or_register-FoundAgain send url name a (raises request_error) file s hu hn e h =
    absurd (raises-ne-returns (ap (λ p. p.0) h))
or_register-FoundAgain send url name a (raises key_error) file s hu hn e h =
    absurd (raises-ne-returns (ap (λ p. p.0) h))
or_register-FoundAgain send url name a (raises type_error) file s hu hn e h =
    absurd (raises-ne-returns (ap (λ p. p.0) h))
or_register-FoundAgain send url name a (raises (runtime_error m)) file s hu hn e h =
    absurd (raises-ne-returns (ap (λ p. p.0) h))

-- An agent that `connect_or_register` has once returned is returned again under the same name, with the
-- same token and the same id, and the second call asks the broker nothing and writes nothing.
pub connect_or_register_twice :
    {S : Type 0} (broker : Transport S) (url name : String) (meta meta' : Option Json)
    (dm_policy dm_policy' : String) (file file' : CredsFile) (s s' s'' : S) (a : AgentState)
    → connect_or_register broker url name meta dm_policy file s ≡ (returns a, (file', s'))
    → (b : AgentState) × (connect_or_register broker url name meta' dm_policy' file' s''
        ≡ (returns b, (file', s'')))
      × (b.token ≡ a.token)
      × (b.agent_id ≡ a.agent_id)
unfolding connect_or_register new_agent
connect_or_register_twice broker url name meta meta' dm_policy dm_policy' file file' s s' s'' a h =
    let a0 = record (new_agent url name) { metadata = meta_or_empty meta; dm_policy = dm_policy } in
    let (b, e, same_token, same_id) =
      or_register-FoundAgain broker url name a0 (from_credentials url name file) file s refl refl
        refl h in
    let a1 = record (new_agent url name) {
      metadata = meta_or_empty meta';
      dm_policy = dm_policy';
    } in
    (b, ap (λ r. or_register broker a1 r file' s'') e, same_token, same_id)
