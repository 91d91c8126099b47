-- ===== src/Agents/Registration.antt =====
-- Registration and the token that it gives (server/routes_agents.py, server/auth.py).
use claw_msg.Prelude.{
  ◌≡◌, refl, String, Bool, true, Option, none, some, inl, inr, Bool-cases, none-ne-some,
  some-injective,
}
use claw_msg.Schema.{AgentRow, Tables}
use claw_msg.Table.{find_first}
use claw_msg.Auth.{Crypto, looked_up_by, verified_id, authenticate_token}

verified_id-some :
    (c : Crypto) (token : String) (o : Option AgentRow) {k : String}
    → verified_id c token o ≡ some k
    → (r : AgentRow) × (o ≡ some r) × (c.verify_token token r.token_hash ≡ true) × (r.id ≡ k)
verified_id-some c token none h = absurd (none-ne-some h)
verified_id-some c token (some r) h = elim (Bool-cases (c.verify_token token r.token_hash)) [
  | inl e ↦ (r, refl, e, some-injective (rw e at h))
  | inr e ↦ absurd (none-ne-some (rw e at h))
]

-- Who is authenticated by a token has a row with the fast hash of the token, which the token fits.
pub authenticate_token-some :
    (c : Crypto) (token : String) (t : Tables) {k : String}
    → authenticate_token c token t ≡ some k
    → (r : AgentRow) × (find_first (looked_up_by (c.token_lookup_hash token)) t.agents ≡ some r)
      × (c.verify_token token r.token_hash ≡ true)
      × (r.id ≡ k)
unfolding authenticate_token
authenticate_token-some c token t h = verified_id-some c token _ h
